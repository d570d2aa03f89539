-- ===== src/Executor/Clock.antt =====
-- The events that start a turn, which set the executor's time.
use durabletask_rs.Prelude.{
  ◌≡◌, refl, sym, ap, ◌∙◌, Bool, true, false, Option, none, some, List, [], ◌∷◌, if◌then◌else◌,
  Bool-cases, inl, inr, String,
}
use durabletask_rs.Prelude.Outcome.{Outcome, returns, panics, ◌>>=◌, bind_assoc}
use durabletask_rs.Prelude.Result.{Result, ok}
use durabletask_rs.Proto.{
  Timestamp, HistoryEvent, OrchestratorAction, EventType, orchestrator_started,
}
use durabletask_rs.Types.Context.{Host}
use durabletask_rs.Registry.{Registry}
use durabletask_rs.Executor.Context.{
  OrchestrationExecutorContext, new_executor_context, drain, get_actions,
}
use durabletask_rs.Executor.Event.{process_event, process_type}
use durabletask_rs.Executor.Execute.{round, process_events, execute, set_replaying, clear_replaying}
use durabletask_rs.Executor.Marked.{
  marked, Ignores, AllIgnore, drain-marked, process_type-Ignores, process_events-Ignores,
}
use durabletask_rs.Executor.Ignored.{
  IsDrained, new-IsDrained, round-IsDrained, then_events, process_events-IsDrained,
}

abbrev pub starts_turn : Option EventType → Bool
starts_turn (some orchestrator_started) = true
starts_turn _ = false

-- The events but those that start a turn.
abbrev pub untimed : List HistoryEvent → List HistoryEvent
untimed [] = []
untimed (e ∷ es) = let rest = untimed es in if starts_turn e.event_type then rest else e ∷ rest

abbrev as_it_was : Bool → Bool
as_it_was b = b

module _ {Chan : Type 0} where
  abbrev at : Timestamp → OrchestrationExecutorContext Chan → OrchestrationExecutorContext Chan
  at time = marked as_it_was (λ _. time)

module _ {Chan Act : Type 0} (host : Host Chan) (registry : Registry Act) (id : String) where
  process_event-Ignores :
      (time : Timestamp) (event : HistoryEvent)
      → starts_turn event.event_type ≡ false
      → Ignores as_it_was (λ _. time) (process_event host registry id event)
  unfolding process_event
  process_event-Ignores time event h ctx = go event.event_type h
    where
      go :
          (u : Option EventType)
          → starts_turn u ≡ false
          → (elim u [
            | none ↦ returns (at time ctx)
            | some v ↦ process_type host registry id event v (at time ctx)
          ])
            ≡ ((elim u [ none ↦ returns ctx | some v ↦ process_type host registry id event v ctx ])
                >>= λ c. returns (at time c))
      go none e = refl
      go (some orchestrator_started) e = cc
      go (some v) e = process_type-Ignores as_it_was (λ _. time) host registry id event v tt ctx

  untimed-AllIgnore :
      (time : Timestamp) (events : List HistoryEvent)
      → AllIgnore as_it_was (λ _. time) host registry id (untimed events)
  untimed-AllIgnore time [] = tt
  untimed-AllIgnore time (e ∷ es) = elim (Bool-cases (starts_turn e.event_type)) [
    | inl h ↦ rw h (untimed-AllIgnore time es)
    | inr h ↦ rw h (process_event-Ignores time e h, untimed-AllIgnore time es)
  ]

  -- The start of a turn sets the time, if it carries one.
  round_started_turn :
      (event : HistoryEvent) (ctx : OrchestrationExecutorContext Chan)
      → starts_turn event.event_type ≡ true
      → IsDrained host ctx
      → (time : Timestamp) × (round host registry id event ctx ≡ returns (at time ctx))
  unfolding round process_event process_type
  round_started_turn event ctx h d = go event.event_type h
    where
      timed :
          (t : Option Timestamp)
          → (time : Timestamp) × (returns
                (drain host (elim t [ none ↦ ctx | some s ↦ record ctx { current_time_utc = s } ]))
              ≡ returns (at time ctx))
      timed none = (ctx.current_time_utc, ap returns d)
      timed (some s) = (s, ap returns (drain-marked as_it_was (λ _. s) host ctx ∙ ap (at s) d))

      go :
          (u : Option EventType)
          → starts_turn u ≡ true
          → (time : Timestamp) × (((elim u [
            | none ↦ returns ctx
            | some v ↦ process_type host registry id event v ctx
          ])
                >>= λ c. returns (drain host c))
              ≡ returns (at time ctx))
      go none e = cc
      go (some orchestrator_started) e = timed event.timestamp
      go (some _) e = cc

  -- What ignores the time finds the same behind the events without those that start a turn.
  events-untimed :
      {B : Type 0} (f : OrchestrationExecutorContext Chan → Outcome B) (events : List HistoryEvent)
      (ctx : OrchestrationExecutorContext Chan)
      → IsDrained host ctx
      → ((time : Timestamp) (c : OrchestrationExecutorContext Chan) → f (at time c) ≡ f c)
      → (process_events host registry id events ctx >>= f)
        ≡ (process_events host registry id (untimed events) ctx >>= f)
  unfolding process_events
  events-untimed f [] ctx d h = refl
  events-untimed f (e ∷ es) ctx d h = elim (Bool-cases (starts_turn e.event_type)) [
    | inl starts ↦
        let (time, p) = round_started_turn e ctx starts d in
        rw (starts, p)
          (events-untimed f es (at time ctx)
              (drain-marked as_it_was (λ _. time) host ctx ∙ ap (at time) d) h
            ∙ rw
                (process_events-Ignores as_it_was (λ _. time) host registry id (untimed es)
                  (untimed-AllIgnore time es) ctx)
                (forget time (process_events host registry id (untimed es) ctx)))
    | inr others ↦ rw others (
        bind_assoc (round host registry id e ctx) _ _
        ∙ then_events host registry id (round host registry id e ctx) _ _
            (round-IsDrained host registry id e ctx) (λ c d'. events-untimed f es c d' h)
        ∙ sym (bind_assoc (round host registry id e ctx) _ _))
  ]
    where
      forget :
          (time : Timestamp) (o : Outcome (OrchestrationExecutorContext Chan))
          → (o >>= (λ c. returns (at time c)) >>= f) ≡ (o >>= f)
      forget time (returns c) = h time c
      forget time (panics p) = refl

  abbrev answer :
      OrchestrationExecutorContext Chan → Outcome (Result String (List OrchestratorAction))
  answer c = returns (ok (get_actions c))

  -- What the new events without turns' starts lead to does not depend on the time.
  new_untimed :
      (new_events : List HistoryEvent) (time : Timestamp) (c : OrchestrationExecutorContext Chan)
      → (process_events host registry id (untimed new_events) (clear_replaying (at time c))
          >>= answer)
        ≡ (process_events host registry id (untimed new_events) (clear_replaying c) >>= answer)
  unfolding get_actions
  new_untimed new_events time c =
      rw
        (process_events-Ignores as_it_was (λ _. time) host registry id (untimed new_events)
          (untimed-AllIgnore time new_events) (clear_replaying c))
        (bind_assoc (process_events host registry id (untimed new_events) (clear_replaying c)) _ _)

  -- The events that start a turn can be left out of the past and of the new events: the answer is
  -- the same, panics included, for any orchestrators, since nothing reads the time that they set.
  pub execute-untimed :
      (old_events new_events : List HistoryEvent)
      → execute host registry id old_events new_events
        ≡ execute host registry id (untimed old_events) (untimed new_events)
  unfolding execute get_actions
  execute-untimed old_events new_events =
      let start = set_replaying new_executor_context in
      let d =
        drain-marked (λ _. true) (λ time. time) host new_executor_context
        ∙ ap set_replaying (new-IsDrained host) in
      then_events host registry id (process_events host registry id old_events start)
        (λ c. process_events host registry id new_events (clear_replaying c) >>= answer)
        (λ c. process_events host registry id (untimed new_events) (clear_replaying c) >>= answer)
        (process_events-IsDrained host registry id old_events start d)
        (λ c e.
          events-untimed answer new_events (clear_replaying c)
            (drain-marked (λ _. false) (λ time. time) host c ∙ ap clear_replaying e)
            (λ time c'. refl))
      ∙ events-untimed
          (λ c. process_events host registry id (untimed new_events) (clear_replaying c) >>= answer)
          old_events start d (new_untimed new_events)
