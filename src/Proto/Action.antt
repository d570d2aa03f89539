-- ===== src/Proto/Action.antt =====
-- The actions that an orchestrator answers with, as internal.rs builds them.
use durabletask_rs.Prelude.{String, Bool, Option, List}
use durabletask_rs.Prelude.Int.{ℤ}
use durabletask_rs.Proto.Event.{
  Timestamp, OrchestrationStatus, TaskFailureDetails, OrchestrationInstance, HistoryEvent,
}

pub record ScheduleTaskAction : Type 0 where
  pub name : String
  pub input : Option String

pub record CreateTimerAction : Type 0 where
  pub fire_at : Option Timestamp

-- `event_data` is the field `data`, a word that is reserved here.
pub record SendEventAction : Type 0 where
  pub instance_of : Option OrchestrationInstance
  pub name : String
  pub event_data : Option String

pub record CreateSubOrchestrationAction : Type 0 where
  pub name : String
  pub instance_id : String
  pub input : Option String

pub record CompleteOrchestrationAction : Type 0 where
  pub orchestration_status : OrchestrationStatus
  pub result : Option String
  pub carryover_events : List HistoryEvent
  pub failure_details : Option TaskFailureDetails

pub record TerminateOrchestrationAction : Type 0 where
  pub instance_id : String
  pub recurse : Bool
  pub reason : Option String

pub data OrchestratorActionType : Type 0 where
  schedule_task : ScheduleTaskAction → OrchestratorActionType
  create_timer : CreateTimerAction → OrchestratorActionType
  send_event : SendEventAction → OrchestratorActionType
  create_sub_orchestration : CreateSubOrchestrationAction → OrchestratorActionType
  complete_orchestration : CompleteOrchestrationAction → OrchestratorActionType
  terminate_orchestration : TerminateOrchestrationAction → OrchestratorActionType

pub record OrchestratorAction : Type 0 where
  pub id : ℤ
  pub orchestrator_action_type : Option OrchestratorActionType
