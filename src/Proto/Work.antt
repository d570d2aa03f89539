-- ===== src/Proto/Work.antt =====
-- The work items that a sidecar sends to a worker, and the worker's responses.
use durabletask_rs.Prelude.{String, Option, List}
use durabletask_rs.Prelude.Int.{ℤ}
use durabletask_rs.Proto.Event.{TaskFailureDetails, OrchestrationInstance, HistoryEvent}
use durabletask_rs.Proto.Action.{OrchestratorAction}

pub record OrchestratorRequest : Type 0 where
  pub instance_id : String
  pub past_events : List HistoryEvent
  pub new_events : List HistoryEvent

pub record OrchestratorResponse : Type 0 where
  pub instance_id : String
  pub actions : List OrchestratorAction
  pub custom_status : Option String

pub record ActivityRequest : Type 0 where
  pub name : String
  pub input : Option String
  pub orchestration_instance : Option OrchestrationInstance
  pub task_id : ℤ

pub record ActivityResponse : Type 0 where
  pub instance_id : String
  pub task_id : ℤ
  pub result : Option String
  pub failure_details : Option TaskFailureDetails

-- Requests to entities and health pings, which the worker ignores, are without their fields.
pub data Request : Type 0 where
  orchestrator_request : OrchestratorRequest → Request
  activity_request : ActivityRequest → Request
  entity_request health_ping : Request

pub record WorkItem : Type 0 where
  pub request : Option Request
