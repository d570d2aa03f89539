-- ===== src/Sequential/Reactive/Run.antt =====
-- The executor agrees with the meaning of a program, whatever comes in whatever order.
use durabletask_rs.Prelude.{
  ℕ, suc, ◌+◌, ◌<◌, ◌≤◌, ◌≡◌, refl, ap, ◌∙◌, String, Bool, true, false, Option, none, some, List,
  [], ◌∷◌, ◌++◌, ◌==◌, string_eq, length, arith,
}
use durabletask_rs.Prelude.Int.{i32_max, i32_max_pos}
use durabletask_rs.Prelude.HashMap.{lookup}
use durabletask_rs.Prelude.Outcome.{Outcome, returns, panics, ◌>>=◌}
use durabletask_rs.Prelude.Result.{Result, ok}
use durabletask_rs.Proto.{Timestamp, HistoryEvent, OrchestratorAction}
use durabletask_rs.Internal.Events.{new_execution_started_event}
use durabletask_rs.Types.Context.{Host, Events, new_context}
use durabletask_rs.Types.Function.{OrchestratorFunction}
use durabletask_rs.Registry.{Registry, get_orchestrator}
use durabletask_rs.Executor.Context.{OrchestrationExecutorContext, get_actions}
use durabletask_rs.Executor.Execute.{process_events, execute}
use durabletask_rs.Executor.Invariant.{Holds}
use durabletask_rs.Executor.Replay.{execute-append}
use durabletask_rs.Sequential.{reply}
use durabletask_rs.Sequential.Replay.{zero_time}
use durabletask_rs.Sequential.Reactive.{
  Program, done, call, event, crash, code_of, Kept, put, State, at_call, at_event, at_end, settle,
  on_queue, Stimulus, raise, answer, confirm, on_raise, react, told, Expects, due_at,
}
use durabletask_rs.Sequential.Reactive.Kept.{Agrees}
use durabletask_rs.Sequential.Reactive.Poll.{embed, Reaches, kept_of}
use durabletask_rs.Sequential.Reactive.Early.{
  IsOpen, kept_after, raised_before, process_events_early, starts,
}
use durabletask_rs.Sequential.Reactive.Step.{requests_of, round_reacts}

-- What follows a state, where it is reached.
abbrev pub follow {ℓ} : {B : Type ℓ} → B → (State → B) → Outcome State → B
follow stop go (panics p) = stop
follow stop go (returns s) = go s

-- There is no more than one request between two stimuli.
module _ {Chan : Type 0} (host : Host Chan) where
  on_queue_requests :
      (n : ℕ) (waits : Outcome State) (takes : String → List (Option String) → Outcome State)
      (queue : List (Option String))
      → Holds (λ s. requests_of s ≤ suc n) waits
      → ((x : String) (rest : List (Option String))
          → Holds (λ s. requests_of s ≤ suc n) (takes x rest))
      → Holds (λ s. requests_of s ≤ suc n) (on_queue waits takes queue)
  on_queue_requests n waits takes [] h step = h
  on_queue_requests n waits takes (none ∷ rest) h step = tt
  on_queue_requests n waits takes (some x ∷ rest) h step = step x rest

  settle_requests :
      (p : Program) (n : ℕ) (kept : Kept)
      → Holds (λ s. requests_of s ≤ suc n) (settle host n p kept)
  unfolding settle
  settle_requests (done result) n kept = omega arith
  settle_requests (crash p) n kept = tt
  settle_requests (call q k) n kept = omega arith
  settle_requests (event name k) n kept =
      on_queue_requests n _ _ (kept (host.to_lowercase name)) (omega arith)
        (λ x rest. settle_requests (k x) n (put (host.to_lowercase name) rest kept))

  on_raise_requests :
      (n : ℕ) (name : String) (k : String → Program) (kept : Kept) (raised : String)
      (text : Option String) (b : Bool)
      → Holds (λ s. requests_of s ≤ suc n) (on_raise host n name k kept raised text b)
  on_raise_requests n name k kept raised text false = omega arith
  on_raise_requests n name k kept raised none true = tt
  on_raise_requests n name k kept raised (some x) true = settle_requests (k x) n kept

  react_requests :
      (s : State) (x : Stimulus)
      → Holds (λ s'. requests_of s' ≤ suc (requests_of s)) (react host s x)
  react_requests (at_call n q k b kept) confirm = omega arith
  react_requests (at_call n q k b kept) (answer r) = settle_requests (k (reply q r)) (suc n) kept
  react_requests (at_call n q k b kept) (raise name text) = omega arith
  react_requests (at_event n name k kept) (raise raised text) =
      on_raise_requests n name k kept raised text
        (host.to_lowercase name == host.to_lowercase raised)
  react_requests (at_event n name k kept) confirm = omega arith
  react_requests (at_event n name k kept) (answer r) = omega arith
  react_requests (at_end n result kept) (raise name text) = omega arith
  react_requests (at_end n result kept) confirm = omega arith
  react_requests (at_end n result kept) (answer r) = omega arith

  -- The meaning of a program under stimuli, one after another.
  abbrev pub run : List Stimulus → State → Outcome State
  run [] s = returns s
  run (x ∷ xs) s = react host s x >>= run xs

  -- Each stimulus comes where it is expected.
  abbrev pub Fits : List Stimulus → State → Type 0
  Fits [] s = Unit {0}
  Fits (x ∷ xs) s = Expects host s x × follow (Unit {0}) (Fits xs) (react host s x)

  -- The sidecar's events for them.
  abbrev pub history : Timestamp → List Stimulus → State → List HistoryEvent
  history now [] s = []
  history now (x ∷ xs) s = told host now s x ∷ follow [] (history now xs) (react host s x)

abbrev pub nothing_kept : Kept
nothing_kept name = []

module _ {Chan Act : Type 0} (host : Host Chan) (registry : Registry Act) (id : String)
    (input : Option String) (now : Timestamp) where
  abbrev answers :
      Outcome (OrchestrationExecutorContext Chan)
      → Outcome (Result String (List OrchestratorAction))
  answers o = o >>= λ c. returns (ok (get_actions c))

  abbrev pub meaning : Outcome State → Outcome (Result String (List OrchestratorAction))
  meaning o = o >>= λ s. returns (ok (due_at host s))

  due_lem :
      (s : State) (received : Events) (channels : List Chan)
      → get_actions (embed host id input zero_time s received channels) ≡ due_at host s
  unfolding get_actions
  due_lem (at_call n q k true kept) received channels = refl
  due_lem (at_call n q k false kept) received channels = refl
  due_lem (at_event n name k kept) received channels = refl
  due_lem (at_end n result kept) received channels = refl

  -- Events behind an outcome that the executor reaches.
  Follows : List Stimulus → Type 0
  Follows xs =
      (s : State) (received : Events) (channels : List Chan)
      → Fits host xs s
      → requests_of s + length xs < suc i32_max
      → Agrees (kept_of host id input zero_time s) received
      → answers (
          process_events host registry id (history host now xs s)
            (embed host id input zero_time s received channels))
        ≡ meaning (run host xs s)

  behind :
      (xs : List Stimulus) (o : Outcome State) (m : Outcome (OrchestrationExecutorContext Chan))
      → Reaches host id input zero_time o m
      → follow (Unit {0}) (Fits host xs) o
      → Holds (λ s. requests_of s + length xs < suc i32_max) o
      → Follows xs
      → answers (m >>= process_events host registry id (follow [] (history host now xs) o))
        ≡ meaning (o >>= run host xs)
  unfolding Follows
  behind xs (panics p) m reached fits few step = rw reached refl
  behind xs (returns s) m (received, channels, agrees, e) fits few step =
      rw e (step s received channels fits few agrees)

  few_left :
      (n m : ℕ) (o : Outcome State)
      → n + suc m < suc i32_max
      → Holds (λ s. requests_of s ≤ suc n) o
      → Holds (λ s. requests_of s + m < suc i32_max) o
  few_left n m (panics p) few h = tt
  few_left n m (returns s) few h = omega arith

  follows : (xs : List Stimulus) → Follows xs
  unfolding Follows process_events
  follows [] s received channels fits few agrees =
      ap (λ (a : List OrchestratorAction). returns (ok a)) (due_lem s received channels)
  follows (x ∷ xs) s received channels fits few agrees =
      behind xs (react host s x) _
        (round_reacts host id input zero_time registry now s x received channels fits.0
          (omega arith) agrees)
        fits.1 (few_left (requests_of s) (length xs) (react host s x) few (react_requests host s x))
        (follows xs)

  module _ (uuid name : String) (f : OrchestratorFunction)
      (found : get_orchestrator registry name ≡ some f) where
    -- The state at which the code first waits.
    abbrev pub opening : Program → List (String × Option String) → Outcome State
    opening p early = settle host 0 p (kept_after host registry id input now early nothing_kept)

    nothing-Agrees : Agrees nothing_kept []
    unfolding lookup
    nothing-Agrees = record { filled = tt; queues = λ name'. refl }

    -- An orchestrator that awaits requests and events one after another, whatever events come before
    -- it starts and whatever replies and events come then, in whatever order: an event is kept until
    -- it is awaited, and the executor answers the action that is due by the program's meaning, or none
    -- where it waits for a reply or an event, and panics exactly where the program does. A request is
    -- acknowledged before it is replied to, and replies come to requests that were made; the program
    -- does not return at its first poll; fewer than 2 ^ 31 - 1 acknowledgements, replies and events
    -- come after the start. The history may be cut anywhere.
    pub execute-run :
        (p : Program) (early : List (String × Option String)) (stimuli : List Stimulus)
        (old_events new_events : List HistoryEvent)
        → f (new_context id input) ≡ code_of p
        → Holds IsOpen (opening p early)
        → follow (Unit {0}) (Fits host stimuli) (opening p early)
        → length stimuli < i32_max
        → old_events ++ new_events
          ≡ raised_before host registry id input now early
            ++ (new_execution_started_event now uuid name id input none none none
                ∷ follow [] (history host now stimuli) (opening p early))
        → execute host registry id old_events new_events
          ≡ meaning (opening p early >>= run host stimuli)
    unfolding execute
    execute-run p early stimuli old_events new_events code opens fits few cut =
        let kept = kept_after host registry id input now early nothing_kept in
        let (received, agrees, e) =
          process_events_early host registry id input now early _ nothing_kept [] nothing-Agrees in
        execute-append host registry id old_events new_events
        ∙ ap (execute host registry id []) cut
        ∙ ap answers e
        ∙ behind stimuli (opening p early) _
            (starts host registry id input now uuid name f found p code kept received i32_max_pos
              agrees opens)
            fits
            (few_left 0 (length stimuli) (opening p early) (omega arith)
              (settle_requests host p 0 kept))
            (follows stimuli)
