-- ===== src/Sequential/Stale.antt =====
-- Events that come again, or for a request that is not waited for: a sidecar may deliver a reply or
-- an acknowledgement more than once.
pub mod History
use durabletask_rs.Prelude.{
  ℕ, suc, ◌+◌, ◌<◌, ◌≡◌, refl, sym, ap, ◌∙◌, String, Bool, true, false, Option, none, some, List,
  [], ◌∷◌, ◌++◌, length, All, arith, Bool-cases, inl, inr,
}
use durabletask_rs.Prelude.Int.{ℤ, pos, i32_max, int_eq, int_beq, int_beq_iff}
use durabletask_rs.Prelude.HashMap.{HashMap, lookup, remove, lookup_other, remove_other}
use durabletask_rs.Prelude.Outcome.{Outcome, returns, ◌>>=◌}
use durabletask_rs.Prelude.Result.{Result, ok}
use durabletask_rs.Proto.{
  Timestamp, HistoryEvent, OrchestratorAction, EventType, task_scheduled, task_completed,
  task_failed, sub_orchestration_instance_created, sub_orchestration_instance_completed,
  sub_orchestration_instance_failed, timer_created, timer_fired,
}
use durabletask_rs.Types.Context.{Host, new_context}
use durabletask_rs.Types.Async.{Async, await_task, poll_async}
use durabletask_rs.Types.Function.{OrchestratorResult, OrchestratorFunction}
use durabletask_rs.Registry.{Registry, get_orchestrator}
use durabletask_rs.Executor.Context.{
  OrchestrationExecutorContext, new_executor_context, get_actions, drain, acknowledge,
}
use durabletask_rs.Executor.Poll.{poll_unwrap}
use durabletask_rs.Executor.Event.{
  complete_task, process_event, process_type, error_message, fired_result,
}
use durabletask_rs.Executor.Execute.{round, process_events, execute}
use durabletask_rs.Sequential.{Request, request_action}
use durabletask_rs.Sequential.Poll.{task_on, fresh, poll_task-fresh}
use durabletask_rs.Sequential.Round.{context}

-- Events of requests other than the one numbered `n`.
abbrev pub IsStaleType : ℤ → HistoryEvent → EventType → Type 0
IsStaleType n event (task_scheduled e) = ¬ (event.event_id ≡ n)
IsStaleType n event (timer_created e) = ¬ (event.event_id ≡ n)
IsStaleType n event (sub_orchestration_instance_created e) = ¬ (event.event_id ≡ n)
IsStaleType n event (task_completed e) = ¬ (e.task_scheduled_id ≡ n)
IsStaleType n event (task_failed e) = ¬ (e.task_scheduled_id ≡ n)
IsStaleType n event (sub_orchestration_instance_completed e) = ¬ (e.task_scheduled_id ≡ n)
IsStaleType n event (sub_orchestration_instance_failed e) = ¬ (e.task_scheduled_id ≡ n)
IsStaleType n event (timer_fired e) = ¬ (e.timer_id ≡ n)
IsStaleType n event _ = ⊥

abbrev pub IsStaleOption : ℤ → HistoryEvent → Option EventType → Type 0
IsStaleOption n event none = ⊥
IsStaleOption n event (some t) = IsStaleType n event t

abbrev pub IsStale : ℤ → HistoryEvent → Type 0
IsStale n event = IsStaleOption n event event.event_type

int_beq_other : (a n : ℤ) → ¬ (a ≡ n) → int_beq n a ≡ false
int_beq_other a n h = elim (Bool-cases (int_beq n a)) [
  | inl e ↦ absurd (h (sym ((int_beq_iff n a).0 e)))
  | inr e ↦ e
]

module _ {Chan Act : Type 0} (host : Host Chan) (registry : Registry Act) (id : String)
    (input : Option String) (time : Timestamp) (k : String → Async (OrchestratorResult String))
    (m : ℕ) (channels : List Chan) where
  -- The code awaits its request, with the actions that are not acknowledged.
  abbrev pub awaiting : HashMap ℤ OrchestratorAction → OrchestrationExecutorContext Chan
  awaiting actions =
      context host id input time (suc m) (some (await_task (task_on (length channels)) k))
        (length channels ∷ []) actions ((pos (suc m), length channels) ∷ [])
        (channels ++ fresh host ∷ [])

  complete_task_other :
      (other : ℤ) (result : Option String) (actions : HashMap ℤ OrchestratorAction)
      → ¬ (other ≡ pos (suc m))
      → complete_task host other result (awaiting actions) ≡ returns (awaiting actions)
  unfolding complete_task
  complete_task_other other result actions h =
      let e = int_beq_other other (pos (suc m)) h in
      rw (
        lookup_other other (pos (suc m)) (length channels) e,
        remove_other other (pos (suc m)) (length channels) e,
      )

  -- A poll finds the task as it was.
  poll_unwrap-awaiting :
      (actions : HashMap ℤ OrchestratorAction)
      → poll_unwrap host (awaiting actions) ≡ returns (awaiting actions)
  unfolding poll_unwrap poll_async
  poll_unwrap-awaiting actions = rw (poll_task-fresh host channels)

  drain-awaiting :
      (actions : HashMap ℤ OrchestratorAction) → drain host (awaiting actions) ≡ awaiting actions
  unfolding drain
  drain-awaiting actions = refl

  completed_other :
      (other : ℤ) (result : Option String) (actions : HashMap ℤ OrchestratorAction)
      → ¬ (other ≡ pos (suc m))
      → (complete_task host other result (awaiting actions) >>= poll_unwrap host)
        ≡ returns (awaiting actions)
  completed_other other result actions h =
      rw (complete_task_other other result actions h) (poll_unwrap-awaiting actions)

  acknowledge_nothing : (other : ℤ) → acknowledge other (awaiting []) ≡ awaiting []
  unfolding acknowledge remove
  acknowledge_nothing other = refl

  -- The actions that may be left: that of the request, or none.
  module _ (action : OrchestratorAction) where
    abbrev left : Bool → HashMap ℤ OrchestratorAction
    left true = (pos (suc m), action) ∷ []
    left false = []

    acknowledge_other :
        (other : ℤ) (b : Bool)
        → ¬ (other ≡ pos (suc m))
        → acknowledge other (awaiting (left b)) ≡ awaiting (left b)
    unfolding acknowledge
    acknowledge_other other true h =
        rw (remove_other other (pos (suc m)) action (int_beq_other other (pos (suc m)) h)) refl
    acknowledge_other other false h = acknowledge_nothing other

    process_type_stale :
        (event : HistoryEvent) (t : EventType) (b : Bool)
        → IsStaleType (pos (suc m)) event t
        → process_type host registry id event t (awaiting (left b)) ≡ returns (awaiting (left b))
    unfolding process_type
    process_type_stale event (task_scheduled e) b h =
        ap returns (acknowledge_other event.event_id b h)
    process_type_stale event (timer_created e) b h =
        ap returns (acknowledge_other event.event_id b h)
    process_type_stale event (sub_orchestration_instance_created e) b h =
        ap returns (acknowledge_other event.event_id b h)
    process_type_stale event (task_completed e) b h =
        completed_other e.task_scheduled_id e.result (left b) h
    process_type_stale event (task_failed e) b h =
        complete_task_other e.task_scheduled_id (error_message e.failure_details) (left b) h
    process_type_stale event (sub_orchestration_instance_completed e) b h =
        completed_other e.task_scheduled_id e.result (left b) h
    process_type_stale event (sub_orchestration_instance_failed e) b h =
        completed_other e.task_scheduled_id (error_message e.failure_details) (left b) h
    process_type_stale event (timer_fired e) b h =
        completed_other e.timer_id (fired_result e.fire_at) (left b) h
    process_type_stale event _ b h = absurd h

    round_stale :
        (event : HistoryEvent) (b : Bool)
        → IsStale (pos (suc m)) event
        → round host registry id event (awaiting (left b)) ≡ returns (awaiting (left b))
    unfolding round process_event
    round_stale event b h = go event.event_type h
      where
        go :
            (t : Option EventType)
            → IsStaleOption (pos (suc m)) event t
            → ((elim t as (λ x. Outcome (OrchestrationExecutorContext Chan)) [
              | none ↦ returns (awaiting (left b))
              | some u ↦ process_type host registry id event u (awaiting (left b))
            ])
                >>= λ c. returns (drain host c))
              ≡ returns (awaiting (left b))
        go none bad = absurd bad
        go (some t) s = rw (process_type_stale event t b s) (ap returns (drain-awaiting (left b)))

    -- Stale events in a row change nothing.
    pub process_events_stale :
        (events rest : List HistoryEvent) (b : Bool)
        → All (IsStale (pos (suc m))) events
        → process_events host registry id (events ++ rest) (awaiting (left b))
          ≡ process_events host registry id rest (awaiting (left b))
    unfolding process_events
    process_events_stale [] rest b h = refl
    process_events_stale (e ∷ es) rest b h =
        rw (round_stale e b h.0) (process_events_stale es rest b h.1)
