-- ===== src/Executor/Replay.antt =====
-- Past and new events are processed alike: a history counts only as a whole.
use durabletask_rs.Prelude.{
  ◌≡◌, refl, sym, ◌∙◌, String, Bool, true, false, Option, none, some, List, [], ◌∷◌, ◌++◌, arith,
}
use durabletask_rs.Prelude.Outcome.{Outcome, returns, panics, ◌>>=◌, bind_assoc}
use durabletask_rs.Prelude.Result.{Result, ok}
use durabletask_rs.Proto.{
  Timestamp, HistoryEvent, OrchestratorAction, EventType, orchestrator_started,
}
use durabletask_rs.Types.Context.{Host}
use durabletask_rs.Registry.{Registry}
use durabletask_rs.Executor.Context.{
  OrchestrationExecutorContext, new_executor_context, get_actions,
}
use durabletask_rs.Executor.Event.{process_event, process_type}
use durabletask_rs.Executor.Marked.{
  marked, Ignores, AllIgnore, process_type-Ignores, process_events-Ignores,
}
use durabletask_rs.Executor.Execute.{round, process_events, execute}

bind-ext :
    {A B : Type 0} (m : Outcome A) {f g : A → Outcome B}
    → ((a : A) → f a ≡ g a)
    → (m >>= f) ≡ (m >>= g)
bind-ext (returns a) h = h a
bind-ext (panics p) h = refl

-- The time as it is.
abbrev same : Timestamp → Timestamp
same t = t

module _ {Chan Act : Type 0} (host : Host Chan) (registry : Registry Act) (id : String) where
  -- No event reads or changes `is_replaying`.
  process_event-Ignores :
      (b : Bool) (event : HistoryEvent)
      → Ignores (λ _. b) same (process_event host registry id event)
  unfolding process_event process_type
  process_event-Ignores b event ctx = go event.event_type
    where
      go :
          (u : Option EventType)
          → (elim u [
            | none ↦ returns (marked (λ _. b) same ctx)
            | some v ↦ process_type host registry id event v (marked (λ _. b) same ctx)
          ])
            ≡ ((elim u [ none ↦ returns ctx | some v ↦ process_type host registry id event v ctx ])
                >>= λ c. returns (marked (λ _. b) same c))
      go none = refl
      go (some orchestrator_started) = ground arith
      go (some v) = process_type-Ignores (λ _. b) same host registry id event v tt ctx

  all_ignore :
      (b : Bool) (events : List HistoryEvent) → AllIgnore (λ _. b) same host registry id events
  all_ignore b [] = tt
  all_ignore b (e ∷ es) = (process_event-Ignores b e, all_ignore b es)

  process_events-replaying :
      (b : Bool) (events : List HistoryEvent)
      → Ignores (λ _. b) same (process_events host registry id events)
  process_events-replaying b events =
      process_events-Ignores (λ _. b) same host registry id events (all_ignore b events)

  pub process_events-append :
      (es fs : List HistoryEvent) (ctx : OrchestrationExecutorContext Chan)
      → process_events host registry id (es ++ fs) ctx
        ≡ (process_events host registry id es ctx >>= process_events host registry id fs)
  unfolding process_events
  process_events-append [] fs ctx = refl
  process_events-append (e ∷ es) fs ctx =
      bind-ext (round host registry id e ctx) (process_events-append es fs)
      ∙ sym (bind_assoc (round host registry id e ctx) _ _)

  abbrev actions_after :
      List HistoryEvent
      → OrchestrationExecutorContext Chan
      → Outcome (Result String (List OrchestratorAction))
  actions_after events ctx =
      process_events host registry id events ctx >>= λ c. returns (ok (get_actions c))

  actions_after-replaying :
      (events : List HistoryEvent) (b : Bool) (ctx : OrchestrationExecutorContext Chan)
      → actions_after events (marked (λ _. b) same ctx) ≡ actions_after events ctx
  unfolding get_actions
  actions_after-replaying events b ctx =
      rw (process_events-replaying b events ctx)
        (bind_assoc (process_events host registry id events ctx) _ _)

  -- The answer depends on the past and the new events only through the history that they make
  -- together: where the sidecar cuts a history, and that the past is replayed, changes neither the
  -- actions nor whether the executor panics.
  pub execute-append :
      (old_events new_events : List HistoryEvent)
      → execute host registry id old_events new_events
        ≡ execute host registry id [] (old_events ++ new_events)
  unfolding execute
  execute-append old_events new_events =
      rw
        (
          process_events-replaying true old_events start,
          process_events-append old_events new_events start,
        )
        (bind_assoc (process_events host registry id old_events start) _ _
          ∙ bind-ext (process_events host registry id old_events start)
              (actions_after-replaying new_events false)
          ∙ sym (bind_assoc (process_events host registry id old_events start) _ _))
    where
      start : OrchestrationExecutorContext Chan
      start = new_executor_context
