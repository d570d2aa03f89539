-- ===== src/Executor/Ignored.antt =====
-- The events that process_event has no arm for, such as those that suspend and resume an
-- orchestration.
use durabletask_rs.Prelude.{
  ◌≡◌, refl, ap, ◌∙◌, Bool, true, false, Option, none, some, List, [], ◌∷◌, if◌then◌else◌,
  Bool-cases, inl, inr, String,
}
use durabletask_rs.Prelude.Outcome.{Outcome, returns, panics, ◌>>=◌}
use durabletask_rs.Prelude.Result.{Result, ok}
use durabletask_rs.Proto.{
  HistoryEvent, OrchestratorAction, EventType, orchestrator_completed, event_sent, generic_event,
  history_state, continue_as_new, execution_suspended, execution_resumed,
}
use durabletask_rs.Types.Context.{Host}
use durabletask_rs.Registry.{Registry}
use durabletask_rs.Executor.Context.{
  OrchestrationExecutorContext, Orchestrator, new_executor_context, drain, drain_from,
  drain_actions, drain_tasks, drain_events, get_actions,
}
use durabletask_rs.Executor.Event.{process_event, process_type}
use durabletask_rs.Executor.Execute.{round, process_events, execute, set_replaying, clear_replaying}
use durabletask_rs.Executor.Invariant.{Holds, Holds-bind}
use durabletask_rs.Executor.Marked.{drain-marked}

-- The types of events that the executor has an arm for.
abbrev pub is_handled_type : EventType → Bool
is_handled_type orchestrator_completed = false
is_handled_type (event_sent _) = false
is_handled_type generic_event = false
is_handled_type history_state = false
is_handled_type continue_as_new = false
is_handled_type (execution_suspended _) = false
is_handled_type (execution_resumed _) = false
is_handled_type _ = true

abbrev pub is_handled : Option EventType → Bool
is_handled none = false
is_handled (some t) = is_handled_type t

abbrev pub handled : List HistoryEvent → List HistoryEvent
handled [] = []
handled (e ∷ es) = let rest = handled es in if is_handled e.event_type then e ∷ rest else rest

module _ {Chan : Type 0} (host : Host Chan) where
  -- Nothing that the orchestrator sent is left to take.
  abbrev pub IsDrained : OrchestrationExecutorContext Chan → Type 0
  IsDrained ctx = drain host ctx ≡ ctx

  drain_from_twice :
      (o : Option Orchestrator) (ctx : OrchestrationExecutorContext Chan)
      → ctx.orchestrator_fn ≡ o
      → IsDrained (drain_from host o ctx)
  unfolding drain drain_actions drain_tasks drain_events
  drain_from_twice none ctx h = rw h refl
  drain_from_twice (some o) ctx h = refl

  drain-IsDrained : (ctx : OrchestrationExecutorContext Chan) → IsDrained (drain host ctx)
  unfolding drain
  drain-IsDrained ctx = drain_from_twice ctx.orchestrator_fn ctx refl

  pub new-IsDrained : IsDrained new_executor_context
  unfolding drain new_executor_context
  new-IsDrained = refl

module _ {Chan Act : Type 0} (host : Host Chan) (registry : Registry Act) (id : String) where
  process_type-ignored :
      (event : HistoryEvent) (t : EventType) (ctx : OrchestrationExecutorContext Chan)
      → is_handled_type t ≡ false
      → process_type host registry id event t ctx ≡ returns ctx
  unfolding process_type
  process_type-ignored event orchestrator_completed ctx h = refl
  process_type-ignored event (event_sent _) ctx h = refl
  process_type-ignored event generic_event ctx h = refl
  process_type-ignored event history_state ctx h = refl
  process_type-ignored event continue_as_new ctx h = refl
  process_type-ignored event (execution_suspended _) ctx h = refl
  process_type-ignored event (execution_resumed _) ctx h = refl
  process_type-ignored event _ ctx h = cc

  process_event-ignored :
      (event : HistoryEvent) (ctx : OrchestrationExecutorContext Chan)
      → is_handled event.event_type ≡ false
      → process_event host registry id event ctx ≡ returns ctx
  unfolding process_event
  process_event-ignored event ctx h = go event.event_type h
    where
      go :
          (t : Option EventType)
          → is_handled t ≡ false
          → (elim t [ none ↦ returns ctx | some u ↦ process_type host registry id event u ctx ])
            ≡ returns ctx
      go none e = refl
      go (some t) e = process_type-ignored event t ctx e

  round-ignored :
      (event : HistoryEvent) (ctx : OrchestrationExecutorContext Chan)
      → is_handled event.event_type ≡ false
      → IsDrained host ctx
      → round host registry id event ctx ≡ returns ctx
  unfolding round
  round-ignored event ctx h d = rw (process_event-ignored event ctx h, d) refl

  pub round-IsDrained :
      (event : HistoryEvent) (ctx : OrchestrationExecutorContext Chan)
      → Holds (IsDrained host) (round host registry id event ctx)
  unfolding round
  round-IsDrained event ctx = go (process_event host registry id event ctx)
    where
      go :
          (m : Outcome (OrchestrationExecutorContext Chan))
          → Holds (IsDrained host) (m >>= λ c. returns (drain host c))
      go (returns c) = drain-IsDrained host c
      go (panics p) = tt

  pub then_events :
      {B : Type 0} (m : Outcome (OrchestrationExecutorContext Chan))
      (f g : OrchestrationExecutorContext Chan → Outcome B)
      → Holds (IsDrained host) m
      → ((c : OrchestrationExecutorContext Chan) → IsDrained host c → f c ≡ g c)
      → (m >>= f) ≡ (m >>= g)
  then_events (returns c) f g d h = h c d
  then_events (panics p) f g d h = refl

  process_events-handled :
      (events : List HistoryEvent) (ctx : OrchestrationExecutorContext Chan)
      → IsDrained host ctx
      → process_events host registry id events ctx
        ≡ process_events host registry id (handled events) ctx
  unfolding process_events
  process_events-handled [] ctx d = refl
  process_events-handled (e ∷ es) ctx d = elim (Bool-cases (is_handled e.event_type)) [
    | inl h ↦ rw h (
        then_events (round host registry id e ctx) _ _ (round-IsDrained e ctx)
          (process_events-handled es))
    | inr h ↦ rw (h, round-ignored e ctx h d) (process_events-handled es ctx d)
  ]

  pub process_events-IsDrained :
      (events : List HistoryEvent) (ctx : OrchestrationExecutorContext Chan)
      → IsDrained host ctx
      → Holds (IsDrained host) (process_events host registry id events ctx)
  unfolding process_events
  process_events-IsDrained [] ctx d = d
  process_events-IsDrained (e ∷ es) ctx d =
      Holds-bind (IsDrained host) (IsDrained host) (round host registry id e ctx)
        (process_events host registry id es) (round-IsDrained e ctx) (process_events-IsDrained es)

  abbrev answer :
      OrchestrationExecutorContext Chan → Outcome (Result String (List OrchestratorAction))
  answer c = returns (ok (get_actions c))

  -- The events that the executor has no arm for, those that suspend and resume an orchestration
  -- among them, can be left out of the past and of the new events: the answer is the same, panics
  -- included, for any orchestrators.
  pub execute-handled :
      (old_events new_events : List HistoryEvent)
      → execute host registry id old_events new_events
        ≡ execute host registry id (handled old_events) (handled new_events)
  unfolding execute
  execute-handled old_events new_events =
      let start = set_replaying new_executor_context in
      let d =
        drain-marked (λ _. true) (λ time. time) host new_executor_context
        ∙ ap set_replaying (new-IsDrained host) in
      then_events (process_events host registry id old_events start)
        (λ c. process_events host registry id new_events (clear_replaying c) >>= answer)
        (λ c. process_events host registry id (handled new_events) (clear_replaying c) >>= answer)
        (process_events-IsDrained old_events start d)
        (λ c e.
          ap (λ (m : Outcome (OrchestrationExecutorContext Chan)). m >>= answer)
            (process_events-handled new_events (clear_replaying c)
              (drain-marked (λ _. false) (λ time. time) host c ∙ ap clear_replaying e)))
      ∙ ap
          (λ (m : Outcome (OrchestrationExecutorContext Chan)). m >>= λ c.
            process_events host registry id (handled new_events) (clear_replaying c) >>= answer)
          (process_events-handled old_events start d)
