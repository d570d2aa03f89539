-- ===== src/Internal/Actions.antt =====
-- The constructors of actions in internal.rs.
use durabletask_rs.Prelude.{String, Bool, Option, none, some, List}
use durabletask_rs.Prelude.Int.{ℤ, negsuc}
use durabletask_rs.Proto.{
  Timestamp, OrchestrationStatus, TaskFailureDetails, HistoryEvent, OrchestratorAction,
  schedule_task, create_timer, send_event, create_sub_orchestration, complete_orchestration,
  terminate_orchestration,
}

unfoldable pub new_schedule_task_action : ℤ → String → Option String → OrchestratorAction
new_schedule_task_action task_id name input = record {
  id = task_id;
  orchestrator_action_type = some (schedule_task (record { name = name; input = input }));
}

unfoldable pub new_create_timer_action : ℤ → Timestamp → OrchestratorAction
new_create_timer_action task_id fire_at = record {
  id = task_id;
  orchestrator_action_type = some (create_timer (record { fire_at = some fire_at }));
}

unfoldable pub new_send_event_action : String → String → Option String → OrchestratorAction
new_send_event_action instance_id name payload = record {
  id = negsuc 0;
  orchestrator_action_type = some (
      send_event (record {
        instance_of = some (record { instance_id = instance_id; execution_id = none });
        name = name;
        event_data = payload;
      }));
}

unfoldable pub new_create_sub_orchestration_action :
    ℤ → String → String → Option String → OrchestratorAction
new_create_sub_orchestration_action task_id name instance_id input = record {
  id = task_id;
  orchestrator_action_type =
      some (
        create_sub_orchestration
          (record { name = name; instance_id = instance_id; input = input }));
}

unfoldable pub new_complete_orchestration_action :
    ℤ
    → OrchestrationStatus
    → Option String
    → List HistoryEvent
    → Option TaskFailureDetails
    → OrchestratorAction
new_complete_orchestration_action task_id status result carryover_events failure_details = record {
  id = task_id;
  orchestrator_action_type = some (
      complete_orchestration (record {
        orchestration_status = status;
        result = result;
        carryover_events = carryover_events;
        failure_details = failure_details;
      }));
}

unfoldable pub new_terminate_orchestration_action :
    ℤ → String → Bool → Option String → OrchestratorAction
new_terminate_orchestration_action task_id instance_id recurse reason = record {
  id = task_id;
  orchestrator_action_type = some (
      terminate_orchestration
        (record { instance_id = instance_id; recurse = recurse; reason = reason }));
}
