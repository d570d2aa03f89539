-- ===== src/Executor/Event.antt =====
-- `process_event` of executor.rs: what each event of the history does.
use durabletask_rs.Prelude.{ℕ, String, Option, none, some, List, [], ◌∷◌, get_or, set, string_eq}
use durabletask_rs.Prelude.Int.{ℤ, int_eq}
use durabletask_rs.Prelude.Outcome.{Outcome, returns, panics, failed_to_unblock, unwrap_none, ◌>>=◌}
use durabletask_rs.Prelude.HashMap.{HashMap, lookup, insert, remove}
use durabletask_rs.Proto.{
  Timestamp, TaskFailureDetails, terminated, EventType, HistoryEvent, execution_started,
  execution_completed, execution_terminated, task_scheduled, task_completed, task_failed,
  sub_orchestration_instance_created, sub_orchestration_instance_completed,
  sub_orchestration_instance_failed, timer_created, timer_fired, orchestrator_started, event_raised,
}
use durabletask_rs.Internal.Actions.{new_complete_orchestration_action}
use durabletask_rs.Types.Context.{Host, World, new_context}
use durabletask_rs.Types.Async.{Progress, finished, suspended, poll_async}
use durabletask_rs.Types.Function.{OrchestratorFunction, OrchestratorResult}
use durabletask_rs.Registry.{Registry, get_orchestrator}
use durabletask_rs.Executor.Context.{
  Orchestrator, OrchestrationExecutorContext, next_sequence_number, set_complete, insert_action,
  acknowledge, drop_sender, push_back,
}
use durabletask_rs.Executor.Poll.{drop_held, world_of, after_poll, poll_unpin, poll_unwrap}

-- `failure_details.map(|d| d.error_message)`
abbrev pub error_message : Option TaskFailureDetails → Option String
error_message none = none
error_message (some details) = some details.error_message

abbrev pub fired_result : Option Timestamp → Option String
fired_result none = none
fired_result (some at) = some ""

-- The oldest of the tasks that wait for an event, and the tasks that go on waiting.
abbrev pub pop_waiter :
    String → List ℕ → HashMap String (List ℕ) → Option ℕ × HashMap String (List ℕ)
pop_waiter name [] events = (none, remove name events)
pop_waiter name (task ∷ []) events = (some task, remove name events)
pop_waiter name (task ∷ rest) events = (some task, insert name rest events)

module _ {Chan : Type 0} where
  -- `ExecutionTerminated`
  unfoldable pub terminate : OrchestrationExecutorContext Chan → OrchestrationExecutorContext Chan
  unfolding set_complete next_sequence_number insert_action new_complete_orchestration_action
  terminate ctx =
      let (task_id, ctx') = next_sequence_number (set_complete terminated ctx) in
      insert_action task_id (new_complete_orchestration_action task_id terminated none [] none) ctx'

module _ {Chan : Type 0} (host : Host Chan) where
  -- What `Sender::send` answered.
  abbrev pub after_send :
      OrchestrationExecutorContext Chan
      → ℕ
      → Option Chan
      → Outcome (OrchestrationExecutorContext Chan)
  after_send ctx task none = panics failed_to_unblock
  after_send ctx task (some chan) = returns (record ctx { channels = set ctx.channels task chan })

  -- `task.send(input).expect(..)`
  unfoldable pub send_to :
      ℕ
      → Option String
      → OrchestrationExecutorContext Chan
      → Outcome (OrchestrationExecutorContext Chan)
  send_to task input ctx =
      after_send ctx task (host.oneshot.send input (get_or ctx.channels task host.oneshot.channel))

  -- A sender that was taken out of `pending_tasks`: it sends the result, or is dropped without one.
  abbrev pub unblock :
      Option ℕ
      → Option String
      → OrchestrationExecutorContext Chan
      → Outcome (OrchestrationExecutorContext Chan)
  unblock none result ctx = returns ctx
  unblock (some task) (some result) ctx = send_to task (some result) ctx
  unblock (some task) none ctx =
      returns (record ctx { channels = drop_sender host (some task) ctx.channels })

  -- `if let Some(task) = ctx.pending_tasks.remove(&task_id)`, and then its result if there is one.
  unfoldable pub complete_task :
      ℤ
      → Option String
      → OrchestrationExecutorContext Chan
      → Outcome (OrchestrationExecutorContext Chan)
  unfolding lookup remove send_to
  complete_task task_id result ctx =
      unblock (lookup task_id ctx.pending_tasks) result
        (record ctx { pending_tasks = remove task_id ctx.pending_tasks })

  -- `task.unwrap().send(event.input.clone()).unwrap()`
  abbrev pub signal :
      Option ℕ
      → Option String
      → OrchestrationExecutorContext Chan
      → Outcome (OrchestrationExecutorContext Chan)
  signal none input ctx = panics unwrap_none
  signal (some task) input ctx = send_to task input ctx

  abbrev pub raise_to :
      Option (List ℕ)
      → String
      → Option String
      → OrchestrationExecutorContext Chan
      → Outcome (OrchestrationExecutorContext Chan)
  raise_to (some waiting) name input ctx =
      let (task, events) = pop_waiter name waiting ctx.pending_events in
      signal task input (record ctx { pending_events = events }) >>= poll_unwrap host
  raise_to none name input ctx =
      returns (record ctx { received_events = push_back name input ctx.received_events })

  -- `EventRaised`: an event unblocks the task that has waited longest for it, or is kept.
  unfoldable pub raise_event :
      String
      → Option String
      → OrchestrationExecutorContext Chan
      → Outcome (OrchestrationExecutorContext Chan)
  unfolding lookup insert remove send_to poll_unwrap push_back
  raise_event name input ctx =
      let name = host.to_lowercase name in raise_to (lookup name ctx.pending_events) name input ctx

  -- The future that a new one replaces.
  abbrev pub drop_orchestrator : Option Orchestrator → List Chan → List Chan
  drop_orchestrator none channels = channels
  drop_orchestrator (some o) channels = drop_held host o.octx.held channels

  -- After the first poll: an orchestrator that has returned already is dropped, and its result and
  -- all that it sent with it.
  abbrev pub started :
      OrchestrationExecutorContext Chan
      → Progress (OrchestratorResult String) × World Chan
      → OrchestrationExecutorContext Chan
  started ctx (finished result, w) = record ctx {
    received_events = w.received_events;
    channels = drop_held host w.held w.channels;
  }
  started ctx (suspended code, w) =
      after_poll host ctx (record w { channels = drop_orchestrator ctx.orchestrator_fn w.channels })
        (some code)

  abbrev pub start_with :
      String
      → Option String
      → OrchestrationExecutorContext Chan
      → Option OrchestratorFunction
      → Outcome (OrchestrationExecutorContext Chan)
  start_with instance_id input ctx none = returns ctx
  start_with instance_id input ctx (some orchestrator_fn) =
      let octx = new_context instance_id input in
      poll_async host (orchestrator_fn octx) (world_of host octx ctx) >>= λ p.
      returns (started ctx p)

  -- `ExecutionCompleted` polls and drops what the poll returns.
  abbrev pub poll_ignored :
      OrchestrationExecutorContext Chan
      → Option Orchestrator
      → Outcome (OrchestrationExecutorContext Chan)
  poll_ignored ctx none = returns ctx
  poll_ignored ctx (some o) = poll_unpin host ctx o >>= λ p. returns p.1

module _ {Chan Act : Type 0} (host : Host Chan) (registry : Registry Act)
    (instance_id : String) where
  -- The match on the event's type; `event` is the event that it is the type of.
  unfoldable pub process_type :
      HistoryEvent
      → EventType
      → OrchestrationExecutorContext Chan
      → Outcome (OrchestrationExecutorContext Chan)
  unfolding new_context poll_async get_orchestrator acknowledge complete_task poll_unpin poll_unwrap
      raise_event terminate
  process_type event orchestrator_started ctx = returns (elim event.timestamp [
    | none ↦ ctx
    | some timestamp ↦ record ctx { current_time_utc = timestamp }
  ])
  process_type event (execution_started e) ctx =
      start_with host instance_id e.input ctx (get_orchestrator registry e.name)
  process_type event (execution_completed e) ctx = poll_ignored host ctx ctx.orchestrator_fn
  process_type event (execution_terminated e) ctx = returns (terminate ctx)
  process_type event (task_scheduled e) ctx = returns (acknowledge event.event_id ctx)
  process_type event (task_completed e) ctx =
      complete_task host e.task_scheduled_id e.result ctx >>= poll_unwrap host
  process_type event (task_failed e) ctx =
      complete_task host e.task_scheduled_id (error_message e.failure_details) ctx
  process_type event (sub_orchestration_instance_created e) ctx =
      returns (acknowledge event.event_id ctx)
  process_type event (sub_orchestration_instance_completed e) ctx =
      complete_task host e.task_scheduled_id e.result ctx >>= poll_unwrap host
  process_type event (sub_orchestration_instance_failed e) ctx =
      complete_task host e.task_scheduled_id (error_message e.failure_details) ctx
      >>= poll_unwrap host
  process_type event (timer_created e) ctx = returns (acknowledge event.event_id ctx)
  process_type event (timer_fired e) ctx =
      complete_task host e.timer_id (fired_result e.fire_at) ctx >>= poll_unwrap host
  process_type event (event_raised e) ctx = raise_event host e.name e.input ctx
  process_type event _ ctx = returns ctx

  unfoldable pub process_event :
      HistoryEvent → OrchestrationExecutorContext Chan → Outcome (OrchestrationExecutorContext Chan)
  unfolding process_type
  process_event event ctx = elim event.event_type [
    | none ↦ returns ctx
    | some event_type ↦ process_type event event_type ctx
  ]
