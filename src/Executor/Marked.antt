-- ===== src/Executor/Marked.antt =====
-- What no event but OrchestratorStarted reads or changes: that the executor replays, and its time.
use durabletask_rs.Prelude.{
  ℕ, ◌≡◌, refl, ap, String, Bool, Option, none, some, List, [], ◌∷◌, arith,
}
use durabletask_rs.Prelude.Int.{ℤ}
use durabletask_rs.Prelude.Outcome.{Outcome, returns, panics, ◌>>=◌}
use durabletask_rs.Proto.{
  Timestamp, HistoryEvent, OrchestratorAction, EventType, execution_started, execution_completed,
  execution_terminated, task_completed, task_failed, sub_orchestration_instance_completed,
  sub_orchestration_instance_failed, timer_fired, orchestrator_started, event_raised,
}
use durabletask_rs.Types.Context.{Host}
use durabletask_rs.Types.Function.{OrchestratorFunction}
use durabletask_rs.Registry.{Registry, get_orchestrator}
use durabletask_rs.Executor.Context.{
  OrchestrationExecutorContext, Orchestrator, drain, drain_from, drain_actions, drain_tasks,
  drain_events,
}
use durabletask_rs.Executor.Poll.{poll_unpin, poll_unwrap}
use durabletask_rs.Executor.Event.{
  process_event, process_type, complete_task, raise_event, start_with, poll_ignored, error_message,
  fired_result,
}
use durabletask_rs.Executor.Execute.{round, process_events}

-- The types of events that leave the executor's time.
abbrev pub IsTimeless : EventType → Type 0
IsTimeless orchestrator_started = ⊥
IsTimeless _ = Unit {0}

module _ {Chan : Type 0} (m : Bool → Bool) (t : Timestamp → Timestamp) where
  -- The context with other values of `is_replaying` and `current_time_utc`.
  abbrev pub marked : OrchestrationExecutorContext Chan → OrchestrationExecutorContext Chan
  marked ctx = record ctx {
    is_replaying = m ctx.is_replaying;
    current_time_utc = t ctx.current_time_utc;
  }

  -- `f` neither reads nor changes what is marked.
  abbrev pub Ignores :
      (OrchestrationExecutorContext Chan → Outcome (OrchestrationExecutorContext Chan)) → Type 0
  Ignores f =
      (ctx : OrchestrationExecutorContext Chan)
      → f (marked ctx) ≡ (f ctx >>= λ c. returns (marked c))

  Ignores-bind :
      (f g : OrchestrationExecutorContext Chan → Outcome (OrchestrationExecutorContext Chan))
      → Ignores f
      → Ignores g
      → Ignores (λ ctx. f ctx >>= g)
  Ignores-bind f g hf hg ctx = rw (hf ctx) (go (f ctx))
    where
      go :
          (o : Outcome (OrchestrationExecutorContext Chan))
          → (o >>= (λ c. returns (marked c)) >>= g) ≡ (o >>= g >>= λ c. returns (marked c))
      go (panics p) = refl
      go (returns c) = hg c

  drain_actions-marked :
      (xs : List (ℤ × OrchestratorAction)) (ctx : OrchestrationExecutorContext Chan)
      → drain_actions xs (marked ctx) ≡ marked (drain_actions xs ctx)
  unfolding drain_actions
  drain_actions-marked [] ctx = refl
  drain_actions-marked ((n, a) ∷ xs) ctx = drain_actions-marked xs _

  drain_events-marked :
      (xs : List (String × ℕ)) (ctx : OrchestrationExecutorContext Chan)
      → drain_events xs (marked ctx) ≡ marked (drain_events xs ctx)
  unfolding drain_events
  drain_events-marked [] ctx = refl
  drain_events-marked ((n, a) ∷ xs) ctx = drain_events-marked xs _

  module _ (host : Host Chan) where
    drain_tasks-marked :
        (xs : List (ℤ × ℕ)) (ctx : OrchestrationExecutorContext Chan)
        → drain_tasks host xs (marked ctx) ≡ marked (drain_tasks host xs ctx)
    unfolding drain_tasks
    drain_tasks-marked [] ctx = refl
    drain_tasks-marked ((n, a) ∷ xs) ctx = drain_tasks-marked xs _

    poll_unpin-marked :
        (ctx : OrchestrationExecutorContext Chan) (o : Orchestrator)
        → poll_unpin host (marked ctx) o
          ≡ (poll_unpin host ctx o >>= λ p. returns (p.0, marked p.1))
    unfolding poll_unpin
    poll_unpin-marked ctx o = ground arith

    poll_unwrap-Ignores : Ignores (poll_unwrap host)
    unfolding poll_unwrap
    poll_unwrap-Ignores ctx = ground arith

    complete_task-Ignores : (id : ℤ) (r : Option String) → Ignores (complete_task host id r)
    unfolding complete_task
    complete_task-Ignores id r ctx = ground arith

    raise_event-Ignores : (name : String) (r : Option String) → Ignores (raise_event host name r)
    unfolding raise_event
    raise_event-Ignores name r ctx = ground arith

    drain_from-marked :
        (o : Option Orchestrator) (ctx : OrchestrationExecutorContext Chan)
        → drain_from host o (marked ctx) ≡ marked (drain_from host o ctx)
    drain_from-marked none ctx = refl
    drain_from-marked (some o) ctx = rw (
      drain_actions-marked o.octx.actions_tx ctx,
      drain_tasks-marked o.octx.tasks_tx (drain_actions o.octx.actions_tx ctx),
      drain_events-marked o.octx.events_tx
          (drain_tasks host o.octx.tasks_tx (drain_actions o.octx.actions_tx ctx)),
    )

    pub drain-marked :
        (ctx : OrchestrationExecutorContext Chan)
        → drain host (marked ctx) ≡ marked (drain host ctx)
    unfolding drain
    drain-marked ctx = drain_from-marked ctx.orchestrator_fn ctx

    start_with-Ignores :
        (id : String) (input : Option String) (f : Option OrchestratorFunction)
        → Ignores (λ ctx. start_with host id input ctx f)
    start_with-Ignores id input none ctx = refl
    start_with-Ignores id input (some f) ctx = ground arith

    poll_ignored-marked :
        (ctx : OrchestrationExecutorContext Chan) (o : Option Orchestrator)
        → poll_ignored host (marked ctx) o ≡ (poll_ignored host ctx o >>= λ c. returns (marked c))
    unfolding poll_unpin
    poll_ignored-marked ctx none = refl
    poll_ignored-marked ctx (some o) = ground arith

    poll_ignored-Ignores : Ignores (λ ctx. poll_ignored host ctx ctx.orchestrator_fn)
    poll_ignored-Ignores ctx = poll_ignored-marked ctx ctx.orchestrator_fn

    completed-Ignores :
        (id : ℤ) (r : Option String)
        → Ignores (λ ctx. complete_task host id r ctx >>= poll_unwrap host)
    completed-Ignores id r =
        Ignores-bind (complete_task host id r) (poll_unwrap host) (complete_task-Ignores id r)
          poll_unwrap-Ignores

  module _ {Act : Type 0} (host : Host Chan) (registry : Registry Act) (id : String) where
    pub process_type-Ignores :
        (event : HistoryEvent) (u : EventType)
        → IsTimeless u
        → Ignores (process_type host registry id event u)
    unfolding process_type
    process_type-Ignores event (execution_started e) h ctx =
        start_with-Ignores host id e.input (get_orchestrator registry e.name) ctx
    process_type-Ignores event (execution_completed e) h ctx = poll_ignored-Ignores host ctx
    process_type-Ignores event (task_completed e) h ctx =
        completed-Ignores host e.task_scheduled_id e.result ctx
    process_type-Ignores event (task_failed e) h ctx =
        complete_task-Ignores host e.task_scheduled_id (error_message e.failure_details) ctx
    process_type-Ignores event (sub_orchestration_instance_completed e) h ctx =
        completed-Ignores host e.task_scheduled_id e.result ctx
    process_type-Ignores event (sub_orchestration_instance_failed e) h ctx =
        completed-Ignores host e.task_scheduled_id (error_message e.failure_details) ctx
    process_type-Ignores event (timer_fired e) h ctx =
        completed-Ignores host e.timer_id (fired_result e.fire_at) ctx
    process_type-Ignores event (event_raised e) h ctx = raise_event-Ignores host e.name e.input ctx
    process_type-Ignores event orchestrator_started h ctx = absurd h
    process_type-Ignores event (execution_terminated e) h ctx = ground arith
    process_type-Ignores event _ h ctx = refl

    -- A list of events that ignore it does.
    abbrev pub AllIgnore : List HistoryEvent → Type 0
    AllIgnore [] = Unit {0}
    AllIgnore (e ∷ es) = Ignores (process_event host registry id e) × AllIgnore es

    round-Ignores :
        (event : HistoryEvent)
        → Ignores (process_event host registry id event)
        → Ignores (round host registry id event)
    unfolding round
    round-Ignores event h =
        Ignores-bind (process_event host registry id event) (λ ctx. returns (drain host ctx)) h
          (λ ctx. ap returns (drain-marked host ctx))

    pub process_events-Ignores :
        (events : List HistoryEvent)
        → AllIgnore events
        → Ignores (process_events host registry id events)
    unfolding process_events
    process_events-Ignores [] h ctx = refl
    process_events-Ignores (e ∷ es) (h, hs) ctx =
        Ignores-bind (round host registry id e) (process_events host registry id es)
          (round-Ignores e h) (process_events-Ignores es hs) ctx
