-- ===== src/Internal/Names.antt =====
-- Names and task ids of events and actions (internal.rs).
use durabletask_rs.Prelude.{String, Option, none, some, if◌then◌else◌}
use durabletask_rs.Prelude.Int.{ℤ, pos, negsuc, int_beq}
use durabletask_rs.Prelude.Outcome.{Outcome, returns, panics, unwrap_none}
use durabletask_rs.Proto.{
  EventType, ParentInstanceInfo, HistoryEvent, execution_started, execution_completed,
  execution_terminated, task_scheduled, task_completed, task_failed,
  sub_orchestration_instance_created, sub_orchestration_instance_completed,
  sub_orchestration_instance_failed, timer_created, timer_fired, orchestrator_started,
  orchestrator_completed, event_sent, event_raised, generic_event, history_state, continue_as_new,
  execution_suspended, execution_resumed, OrchestratorAction, OrchestratorActionType, schedule_task,
  create_timer, send_event, create_sub_orchestration, complete_orchestration,
  terminate_orchestration,
}

-- `parent_instance.unwrap().task_scheduled_id`
abbrev pub parent_task_id : Option ParentInstanceInfo → Outcome ℤ
parent_task_id none = panics unwrap_none
parent_task_id (some parent) = returns parent.task_scheduled_id

-- The match of `get_task_id`, for an event whose id is 0.
unfoldable pub task_id_of_type : Option EventType → Outcome ℤ
task_id_of_type none = returns (negsuc 0)
task_id_of_type (some (task_completed t)) = returns t.task_scheduled_id
task_id_of_type (some (task_failed t)) = returns t.task_scheduled_id
task_id_of_type (some (sub_orchestration_instance_completed so)) = returns so.task_scheduled_id
task_id_of_type (some (sub_orchestration_instance_failed so)) = returns so.task_scheduled_id
task_id_of_type (some (timer_fired t)) = returns t.timer_id
task_id_of_type (some (execution_started ex)) = parent_task_id ex.parent_instance
task_id_of_type (some _) = returns (negsuc 0)

unfoldable pub get_task_id : HistoryEvent → Outcome ℤ
unfolding task_id_of_type
get_task_id e =
    if int_beq e.event_id (pos 0) then task_id_of_type e.event_type else returns e.event_id

unfoldable pub event_type_name : EventType → String
event_type_name (execution_started _) = "ExecutionStarted"
event_type_name (execution_resumed _) = "ExecutionResumed"
event_type_name (execution_completed _) = "ExecutionCompleted"
event_type_name (execution_suspended _) = "ExecutionSuspended"
event_type_name (execution_terminated _) = "ExecutionTerminated"
event_type_name (timer_fired _) = "TimerFired"
event_type_name (timer_created _) = "TimerCreated"
event_type_name (task_scheduled _) = "TaskScheduled"
event_type_name (task_failed _) = "TaskFailed"
event_type_name (task_completed _) = "TaskCompleted"
event_type_name (sub_orchestration_instance_failed _) = "SubOrchestrationInstanceFailed"
event_type_name (sub_orchestration_instance_completed _) = "SubOrchestrationInstanceFailed"
event_type_name (sub_orchestration_instance_created _) = "SubOrchestrationInstanceCreated"
event_type_name orchestrator_started = "OrchestratorStarted"
event_type_name orchestrator_completed = "OrchestratorCompleted"
event_type_name (event_sent _) = "EventSent"
event_type_name (event_raised _) = "EventRaised"
event_type_name generic_event = "GenericEvent"
event_type_name history_state = "HistoryEvent"
event_type_name continue_as_new = "ContinueAsNew"

unfoldable pub get_history_event_type_name : HistoryEvent → String
unfolding event_type_name
get_history_event_type_name e = elim e.event_type [ none ↦ "" | some t ↦ event_type_name t ]

unfoldable pub action_type_name : OrchestratorActionType → String
action_type_name (send_event _) = "SendEvent"
action_type_name (create_timer _) = "CreateTimer"
action_type_name (schedule_task _) = "ScheduleTask"
action_type_name (complete_orchestration _) = "CompleteOrchestration"
action_type_name (create_sub_orchestration _) = "CreateSubOrchestration"
action_type_name (terminate_orchestration _) = "TerminateOrchestration"

unfoldable pub get_action_type_name : OrchestratorAction → String
unfolding action_type_name
get_action_type_name a = elim a.orchestrator_action_type [ none ↦ "" | some t ↦ action_type_name t ]
