-- ===== src/Proto/Event.antt =====
-- History events, as internal.rs builds them and executor.rs matches on them.
use durabletask_rs.Prelude.{String, Bool, Option}
use durabletask_rs.Prelude.Int.{ℤ}

pub record Timestamp : Type 0 where
  pub seconds : ℤ
  pub nanos : ℤ

pub data OrchestrationStatus : Type 0 where
  running completed continued_as_new failed canceled terminated pending suspended :
      OrchestrationStatus

pub record TaskFailureDetails : Type 0 where
  pub error_type : String
  pub error_message : String

pub record OrchestrationInstance : Type 0 where
  pub instance_id : String
  pub execution_id : Option String

pub record ParentInstanceInfo : Type 0 where
  pub task_scheduled_id : ℤ
  pub name : Option String
  pub orchestration_instance : Option OrchestrationInstance

pub record TraceContext : Type 0 where
  pub trace_parent : String
  pub span_id : String
  pub trace_state : Option String

pub record ExecutionStartedEvent : Type 0 where
  pub name : String
  pub version : Option String
  pub input : Option String
  pub parent_instance : Option ParentInstanceInfo
  pub orchestration_instance : Option OrchestrationInstance
  pub parent_trace_context : Option TraceContext
  pub scheduled_start_timestamp : Option Timestamp

pub record ExecutionCompletedEvent : Type 0 where
  pub orchestration_status : OrchestrationStatus
  pub result : Option String
  pub failure_details : Option TaskFailureDetails

pub record ExecutionTerminatedEvent : Type 0 where
  pub input : Option String
  pub recurse : Bool

pub record TaskScheduledEvent : Type 0 where
  pub name : String
  pub version : Option String
  pub input : Option String
  pub parent_trace_context : Option TraceContext

pub record TaskCompletedEvent : Type 0 where
  pub task_scheduled_id : ℤ
  pub result : Option String

pub record TaskFailedEvent : Type 0 where
  pub task_scheduled_id : ℤ
  pub failure_details : Option TaskFailureDetails

pub record SubOrchestrationInstanceCreatedEvent : Type 0 where
  pub name : String
  pub version : Option String
  pub input : Option String
  pub instance_id : String
  pub parent_trace_context : Option TraceContext

pub record SubOrchestrationInstanceCompletedEvent : Type 0 where
  pub task_scheduled_id : ℤ
  pub result : Option String

pub record SubOrchestrationInstanceFailedEvent : Type 0 where
  pub task_scheduled_id : ℤ
  pub failure_details : Option TaskFailureDetails

pub record TimerCreatedEvent : Type 0 where
  pub fire_at : Option Timestamp

pub record TimerFiredEvent : Type 0 where
  pub timer_id : ℤ
  pub fire_at : Option Timestamp

pub record EventSentEvent : Type 0 where
  pub instance_id : String
  pub name : String
  pub input : Option String

pub record EventRaisedEvent : Type 0 where
  pub name : String
  pub input : Option String

pub record ExecutionSuspendedEvent : Type 0 where
  pub input : Option String

pub record ExecutionResumedEvent : Type 0 where
  pub input : Option String

pub data EventType : Type 0 where
  execution_started : ExecutionStartedEvent → EventType
  execution_completed : ExecutionCompletedEvent → EventType
  execution_terminated : ExecutionTerminatedEvent → EventType
  task_scheduled : TaskScheduledEvent → EventType
  task_completed : TaskCompletedEvent → EventType
  task_failed : TaskFailedEvent → EventType
  sub_orchestration_instance_created : SubOrchestrationInstanceCreatedEvent → EventType
  sub_orchestration_instance_completed : SubOrchestrationInstanceCompletedEvent → EventType
  sub_orchestration_instance_failed : SubOrchestrationInstanceFailedEvent → EventType
  timer_created : TimerCreatedEvent → EventType
  timer_fired : TimerFiredEvent → EventType
  orchestrator_started : EventType
  orchestrator_completed : EventType
  event_sent : EventSentEvent → EventType
  event_raised : EventRaisedEvent → EventType
  generic_event : EventType
  history_state : EventType
  continue_as_new : EventType
  execution_suspended : ExecutionSuspendedEvent → EventType
  execution_resumed : ExecutionResumedEvent → EventType

pub record HistoryEvent : Type 0 where
  pub event_id : ℤ
  pub timestamp : Option Timestamp
  pub event_type : Option EventType
