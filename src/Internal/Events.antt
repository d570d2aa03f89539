-- ===== src/Internal/Events.antt =====
-- The constructors of history events in internal.rs, as a test or a sidecar writes a history.
-- `now` is the reading of `SystemTime::now()`, `uuid` what `Uuid::new_v4()` returned.
use durabletask_rs.Prelude.{String, Bool, Option, none, some}
use durabletask_rs.Prelude.Int.{ℤ, negsuc}
use durabletask_rs.Proto.{
  Timestamp, OrchestrationStatus, TaskFailureDetails, ParentInstanceInfo, TraceContext,
  HistoryEvent, execution_started, execution_completed, execution_terminated, task_scheduled,
  task_completed, task_failed, sub_orchestration_instance_created, timer_created, timer_fired,
  orchestrator_started, event_sent, event_raised, execution_suspended, execution_resumed,
}

-- The event id -1 of events that name no task.
abbrev pub no_id : ℤ
no_id = negsuc 0

module _ (now : Timestamp) where
  unfoldable pub new_execution_started_event :
      String
      → String
      → String
      → Option String
      → Option ParentInstanceInfo
      → Option TraceContext
      → Option Timestamp
      → HistoryEvent
  new_execution_started_event uuid name instance_id input parent parent_trace_context start =
      record {
        event_id = no_id;
        timestamp = some now;
        event_type = some (
            execution_started (record {
              name = name;
              version = none;
              input = input;
              parent_instance = parent;
              orchestration_instance =
                  some (record { instance_id = instance_id; execution_id = some uuid });
              parent_trace_context = parent_trace_context;
              scheduled_start_timestamp = start;
            }));
      }

  unfoldable pub new_execution_completed_event :
      ℤ → OrchestrationStatus → Option String → Option TaskFailureDetails → HistoryEvent
  new_execution_completed_event event_id status result failure_details = record {
    event_id = event_id;
    timestamp = some now;
    event_type = some (
        execution_completed (record {
          orchestration_status = status;
          result = result;
          failure_details = failure_details;
        }));
  }

  unfoldable pub new_execution_terminated_event : Option String → Bool → HistoryEvent
  new_execution_terminated_event reason recurse = record {
    event_id = no_id;
    timestamp = some now;
    event_type = some (execution_terminated (record { input = reason; recurse = recurse }));
  }

  unfoldable pub new_orchestrator_started_event : HistoryEvent
  new_orchestrator_started_event = record {
    event_id = no_id;
    timestamp = some now;
    event_type = some orchestrator_started;
  }

  unfoldable pub new_event_raised_event : String → Option String → HistoryEvent
  new_event_raised_event name input = record {
    event_id = no_id;
    timestamp = some now;
    event_type = some (event_raised (record { name = name; input = input }));
  }

  unfoldable pub new_task_scheduled_event :
      ℤ → String → Option String → Option String → Option TraceContext → HistoryEvent
  new_task_scheduled_event task_id name version input trace_context = record {
    event_id = task_id;
    timestamp = some now;
    event_type = some (
        task_scheduled (record {
          name = name;
          version = version;
          input = input;
          parent_trace_context = trace_context;
        }));
  }

  unfoldable pub new_task_completed_event : ℤ → Option String → HistoryEvent
  new_task_completed_event task_id result = record {
    event_id = no_id;
    timestamp = some now;
    event_type = some (task_completed (record { task_scheduled_id = task_id; result = result }));
  }

  unfoldable pub new_task_failed_event : ℤ → Option TaskFailureDetails → HistoryEvent
  new_task_failed_event task_id failure_details = record {
    event_id = no_id;
    timestamp = some now;
    event_type =
        some
          (task_failed (record { task_scheduled_id = task_id; failure_details = failure_details }));
  }

  unfoldable pub new_timer_created_event : ℤ → Timestamp → HistoryEvent
  new_timer_created_event event_id fire_at = record {
    event_id = event_id;
    timestamp = some now;
    event_type = some (timer_created (record { fire_at = some fire_at }));
  }

  unfoldable pub new_timer_fired_event : ℤ → Timestamp → HistoryEvent
  new_timer_fired_event timer_id fire_at = record {
    event_id = no_id;
    timestamp = some now;
    event_type = some (timer_fired (record { timer_id = timer_id; fire_at = some fire_at }));
  }

  unfoldable pub new_sub_orchestration_created_event :
      ℤ → String → Option String → Option String → String → Option TraceContext → HistoryEvent
  new_sub_orchestration_created_event event_id name version input instance_id trace = record {
    event_id = event_id;
    timestamp = some now;
    event_type = some (
        sub_orchestration_instance_created (record {
          name = name;
          version = version;
          input = input;
          instance_id = instance_id;
          parent_trace_context = trace;
        }));
  }

  unfoldable pub new_event_sent_event : ℤ → String → String → Option String → HistoryEvent
  new_event_sent_event event_id instance_id name input = record {
    event_id = event_id;
    timestamp = some now;
    event_type =
        some (event_sent (record { instance_id = instance_id; name = name; input = input }));
  }

  unfoldable pub new_suspend_orchestration_event : Option String → HistoryEvent
  new_suspend_orchestration_event reason = record {
    event_id = no_id;
    timestamp = some now;
    event_type = some (execution_suspended (record { input = reason }));
  }

  unfoldable pub new_resume_orchestration_event : Option String → HistoryEvent
  new_resume_orchestration_event reason = record {
    event_id = no_id;
    timestamp = some now;
    event_type = some (execution_resumed (record { input = reason }));
  }

unfoldable pub new_parent_info : ℤ → String → String → ParentInstanceInfo
new_parent_info task_id name instance_id = record {
  task_scheduled_id = task_id;
  name = some name;
  orchestration_instance = some (record { instance_id = instance_id; execution_id = none });
}

-- `type_name` is `type_name::<T>()`, `message` what the error's `Display` writes.
unfoldable pub new_task_failure_details : String → String → TaskFailureDetails
new_task_failure_details type_name message = record {
  error_type = type_name;
  error_message = message;
}
