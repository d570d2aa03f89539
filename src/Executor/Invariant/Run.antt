-- ===== src/Executor/Invariant/Run.antt =====
-- The invariant through each event and through a whole history.
use durabletask_rs.Prelude.{String, Option, none, some, List, [], ◌∷◌, string_eq}
use durabletask_rs.Prelude.Int.{int_eq}
use durabletask_rs.Prelude.Outcome.{returns}
use durabletask_rs.Proto.{
  Timestamp, HistoryEvent, EventType, execution_started, execution_completed, execution_terminated,
  task_scheduled, task_completed, task_failed, sub_orchestration_instance_created,
  sub_orchestration_instance_completed, sub_orchestration_instance_failed, timer_created,
  timer_fired, orchestrator_started, event_raised,
}
use durabletask_rs.Types.Context.{Host}
use durabletask_rs.Registry.{Registry, get_orchestrator}
use durabletask_rs.Executor.Context.{OrchestrationExecutorContext}
use durabletask_rs.Executor.Event.{error_message, fired_result, process_type, process_event}
use durabletask_rs.Executor.Execute.{round, process_events}
use durabletask_rs.Executor.Invariant.{Holds, Holds-bind, IsConsistent}
use durabletask_rs.Executor.Invariant.Steps.{drain-IsConsistent}
use durabletask_rs.Executor.Invariant.Effects.{
  acknowledge-IsConsistent, terminate-IsConsistent, complete_task-IsConsistent, then_poll,
  raise_event-IsConsistent, start_with-IsConsistent, poll_ignored-IsConsistent,
}

module _ {Chan Act : Type 0} (host : Host Chan) (registry : Registry Act) (id : String) where
  process_type-IsConsistent :
      (event : HistoryEvent) (t : EventType) (c : OrchestrationExecutorContext Chan)
      → IsConsistent c
      → Holds IsConsistent (process_type host registry id event t c)
  unfolding process_type
  process_type-IsConsistent event orchestrator_started c h = go event.timestamp
    where
      go :
          (t : Option Timestamp)
          → IsConsistent (elim t [ none ↦ c | some time ↦ record c { current_time_utc = time } ])
      go none = h
      go (some time) = record {
        running = h.running;
        numbered = h.numbered;
        distinct = h.distinct;
        distinct_tasks = h.distinct_tasks;
        filled = h.filled;
        waited = h.waited;
        sent = h.sent;
      }
  process_type-IsConsistent event (execution_started e) c h =
      start_with-IsConsistent host id e.input c (get_orchestrator registry e.name) h
  process_type-IsConsistent event (execution_completed e) c h =
      poll_ignored-IsConsistent host c c.orchestrator_fn h h.sent
  process_type-IsConsistent event (execution_terminated e) c h = terminate-IsConsistent c h
  process_type-IsConsistent event (task_scheduled e) c h =
      acknowledge-IsConsistent event.event_id c h
  process_type-IsConsistent event (task_completed e) c h =
      then_poll host _ (complete_task-IsConsistent host e.task_scheduled_id e.result c h)
  process_type-IsConsistent event (task_failed e) c h =
      complete_task-IsConsistent host e.task_scheduled_id (error_message e.failure_details) c h
  process_type-IsConsistent event (sub_orchestration_instance_created e) c h =
      acknowledge-IsConsistent event.event_id c h
  process_type-IsConsistent event (sub_orchestration_instance_completed e) c h =
      then_poll host _ (complete_task-IsConsistent host e.task_scheduled_id e.result c h)
  process_type-IsConsistent event (sub_orchestration_instance_failed e) c h =
      then_poll host _
        (complete_task-IsConsistent host e.task_scheduled_id (error_message e.failure_details) c h)
  process_type-IsConsistent event (timer_created e) c h =
      acknowledge-IsConsistent event.event_id c h
  process_type-IsConsistent event (timer_fired e) c h =
      then_poll host _ (complete_task-IsConsistent host e.timer_id (fired_result e.fire_at) c h)
  process_type-IsConsistent event (event_raised e) c h =
      raise_event-IsConsistent host e.name e.input c h
  process_type-IsConsistent event _ c h = h

  process_event-IsConsistent :
      (event : HistoryEvent) (c : OrchestrationExecutorContext Chan)
      → IsConsistent c
      → Holds IsConsistent (process_event host registry id event c)
  unfolding process_event
  process_event-IsConsistent event c h = go event.event_type
    where
      go :
          (t : Option EventType)
          → Holds IsConsistent
              (elim t [ none ↦ returns c | some u ↦ process_type host registry id event u c ])
      go none = h
      go (some t) = process_type-IsConsistent event t c h

  round-IsConsistent :
      (event : HistoryEvent) (c : OrchestrationExecutorContext Chan)
      → IsConsistent c
      → Holds IsConsistent (round host registry id event c)
  unfolding round
  round-IsConsistent event c h =
      Holds-bind IsConsistent IsConsistent (process_event host registry id event c) _
        (process_event-IsConsistent event c h) (drain-IsConsistent host)

  -- The context stays consistent through any events, for any code of the orchestrator: it is not
  -- marked complete, each pending action stands once, under its own number, a task waits once under a
  -- number, and no queue of received events or of waiting tasks is empty.
  pub process_events-IsConsistent :
      (events : List HistoryEvent) (c : OrchestrationExecutorContext Chan)
      → IsConsistent c
      → Holds IsConsistent (process_events host registry id events c)
  unfolding process_events
  process_events-IsConsistent [] c h = h
  process_events-IsConsistent (e ∷ events) c h =
      Holds-bind IsConsistent IsConsistent (round host registry id e c) _ (round-IsConsistent e c h)
        (process_events-IsConsistent events)
