-- ===== src/Sequential/Reactive/Early.antt =====
-- Events that come before the orchestrator starts, and its first poll.
use durabletask_rs.Prelude.{
  ◌<◌, ◌≡◌, refl, sym, ap, ◌∙◌, String, Bool, true, false, Option, none, some, List, [], ◌∷◌, ◌++◌,
  map,
}
use durabletask_rs.Prelude.HashMap.{lookup}
use durabletask_rs.Prelude.Outcome.{Outcome, Panic, returns, panics, ◌>>=◌, bind_assoc}
use durabletask_rs.Prelude.Result.{ok}
use durabletask_rs.Proto.{Timestamp, HistoryEvent}
use durabletask_rs.Internal.Events.{new_execution_started_event, new_event_raised_event}
use durabletask_rs.Types.Context.{Host, World, Events, new_context}
use durabletask_rs.Types.Async.{Async, Progress, finished, suspended, poll_async}
use durabletask_rs.Types.Function.{OrchestratorResult, OrchestratorFunction}
use durabletask_rs.Registry.{Registry, get_orchestrator}
use durabletask_rs.Executor.Context.{
  OrchestrationExecutorContext, Orchestrator, new_executor_context, push_back, drain, insert_action,
  next_sequence_number,
}
use durabletask_rs.Executor.Event.{raise_event, started}
use durabletask_rs.Executor.Poll.{poll_unwrap, on_progress, on_result, unwrapped}
use durabletask_rs.Executor.Invariant.{Holds}
use durabletask_rs.Prelude.Int.{i32_max}
use durabletask_rs.Executor.Execute.{round, process_events}
use durabletask_rs.Sequential.Poll.{idle_world}
use durabletask_rs.Sequential.Replay.{zero_time}
use durabletask_rs.Sequential.Reactive.{
  Program, code_of, Kept, State, at_call, at_event, at_end, settle, keep,
}
use durabletask_rs.Sequential.Reactive.Kept.{Agrees, Agrees-push_back}
use durabletask_rs.Sequential.Reactive.Poll.{embed, running, Reaches, polled, poll_settle}

-- A state in which the code goes on at a later poll.
abbrev pub IsOpen : State → Type 0
IsOpen (at_end n result kept) = ⊥
IsOpen s = Unit {0}

module _ {Chan Act : Type 0} (host : Host Chan) (registry : Registry Act) (id : String)
    (input : Option String) (now : Timestamp) where
  -- The events that were raised before, with their inputs.
  abbrev pub kept_after : List (String × Option String) → Kept → Kept
  kept_after [] kept = kept
  kept_after ((name, text) ∷ early) kept = kept_after early (keep host name text kept)

  abbrev pub raised_before : List (String × Option String) → List HistoryEvent
  raised_before early =
      map (λ (e : String × Option String). new_event_raised_event now e.0 e.1) early

  abbrev pub before : Events → OrchestrationExecutorContext Chan
  before received = record new_executor_context { received_events = received }

  round_early :
      (name : String) (text : Option String) (received : Events)
      → round host registry id (new_event_raised_event now name text) (before received)
        ≡ returns (before (push_back (host.to_lowercase name) text received))
  unfolding round new_event_raised_event new_executor_context raise_event lookup drain
  round_early name text received = refl

  -- Events that come before the start are kept.
  pub process_events_early :
      (early : List (String × Option String)) (rest : List HistoryEvent) (kept : Kept)
      (received : Events)
      → Agrees kept received
      → (received' : Events) × Agrees (kept_after early kept) received'
        × (process_events host registry id (raised_before early ++ rest) (before received)
            ≡ process_events host registry id rest (before received'))
  unfolding process_events
  process_events_early [] rest kept received agrees = (received, agrees, refl)
  process_events_early ((name, text) ∷ early) rest kept received agrees =
      let (received', agrees', e) =
        process_events_early early rest (keep host name text kept)
          (push_back (host.to_lowercase name) text received)
          (Agrees-push_back (host.to_lowercase name) text kept received agrees) in
      (received', agrees', rw (round_early name text received) e)

  -- The first poll.
  abbrev first :
      Events
      → Outcome (Progress (OrchestratorResult String) × World Chan)
      → Outcome (OrchestrationExecutorContext Chan)
  first received m = m >>= λ p. returns (drain host (started host (before received) p))

  abbrev poll_of :
      Async (OrchestratorResult String)
      → Events
      → Outcome (Progress (OrchestratorResult String) × World Chan)
  poll_of code received = poll_async host code (idle_world host id input received 0 [] [])

  abbrev has_code : Option Orchestrator → Bool
  has_code none = false
  has_code (some o) = elim o.code [ none ↦ false | some code ↦ true ]

  abbrev code_in : Outcome (OrchestrationExecutorContext Chan) → Bool
  code_in (returns c) = has_code c.orchestrator_fn
  code_in (panics p) = false

  open_has_code :
      (s : State) (received : Events) (channels : List Chan)
      → IsOpen s
      → has_code (embed host id input zero_time s received channels).orchestrator_fn ≡ true
  open_has_code (at_call n q k b kept) received channels open_state = refl
  open_has_code (at_event n name k kept) received channels open_state = refl
  open_has_code (at_end n result kept) received channels open_state = absurd open_state

  -- A poll behind which the code goes on, by what the code's poll comes to.
  polled_with :
      Async (OrchestratorResult String)
      → Events
      → Outcome (Progress (OrchestratorResult String) × World Chan)
      → Outcome (OrchestrationExecutorContext Chan)
  polled_with code received m =
      (m >>= λ p. returns (on_progress host (running host id input zero_time code 0 received []) p))
      >>= (λ p. returns (ok (on_result host p)))
      >>= unwrapped host
      >>= λ c. returns (drain host c)

  polled-poll_of :
      (code : Async (OrchestratorResult String)) (received : Events)
      → polled host id input zero_time code 0 received []
        ≡ polled_with code received (poll_of code received)
  unfolding poll_unwrap polled_with
  polled-poll_of code received = refl

  -- Where the code goes on or panics, a first poll does what a later poll would.
  first_returns :
      (code : Async (OrchestratorResult String)) (received : Events)
      (m : Outcome (Progress (OrchestratorResult String) × World Chan))
      (c : OrchestrationExecutorContext Chan)
      → has_code c.orchestrator_fn ≡ true
      → polled_with code received m ≡ returns c
      → first received m ≡ returns c
  unfolding polled_with new_executor_context drain insert_action next_sequence_number
  first_returns code received (panics p) c has h = absurd (cc)
  first_returns code received (returns (suspended code', w)) c has h = h
  first_returns code received (returns (finished r, w)) c has h =
      absurd (let bad : ◌≡◌ {A = Bool} false true = ap code_in h ∙ has in cc)

  first_panics :
      (code : Async (OrchestratorResult String)) (received : Events)
      (m : Outcome (Progress (OrchestratorResult String) × World Chan)) (p : Panic)
      → polled_with code received m ≡ panics p
      → first received m ≡ panics p
  unfolding polled_with
  first_panics code received (panics p') p h = h
  first_panics code received (returns (suspended code', w)) p h = absurd (cc)
  first_panics code received (returns (finished r, w)) p h = absurd (cc)

  module _ (uuid name : String) (f : OrchestratorFunction)
      (found : get_orchestrator registry name ≡ some f) (p : Program)
      (code : f (new_context id input) ≡ code_of p) where
    abbrev pub start : HistoryEvent
    start = new_execution_started_event now uuid name id input none none none

    round-first :
        (received : Events)
        → round host registry id start (before received)
          ≡ first received (poll_of (code_of p) received)
    unfolding round new_execution_started_event new_executor_context new_context
    round-first received = rw (found, code) (bind_assoc (poll_of (code_of p) received) _ _)

    first-Reaches :
        (received : Events) (o : Outcome State)
        → Reaches host id input zero_time o
            (polled host id input zero_time (code_of p) 0 received [])
        → Holds IsOpen o
        → Reaches host id input zero_time o (first received (poll_of (code_of p) received))
    first-Reaches received (panics q) h opens =
        first_panics (code_of p) received (poll_of (code_of p) received) q
          (sym (polled-poll_of (code_of p) received) ∙ h)
    first-Reaches received (returns s) (received', channels, agrees, e) opens = (
      received',
      channels,
      agrees,
      first_returns (code_of p) received (poll_of (code_of p) received) _
          (open_has_code s received' channels opens)
          (sym (polled-poll_of (code_of p) received) ∙ e),
    )

    -- The start of an orchestrator that goes on at a later poll, or panics.
    pub starts :
        (kept : Kept) (received : Events)
        → 0 < i32_max
        → Agrees kept received
        → Holds IsOpen (settle host 0 p kept)
        → Reaches host id input zero_time
            (settle host 0 p kept)
            (round host registry id start (before received))
    starts kept received some_number agrees opens = rw (round-first received) (
        first-Reaches received (settle host 0 p kept)
          (poll_settle host id input zero_time p 0 kept received [] some_number agrees) opens)
