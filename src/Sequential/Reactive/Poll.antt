-- ===== src/Sequential/Reactive/Poll.antt =====
-- A poll of a program's code, and the drain behind it.
use durabletask_rs.Prelude.{
  ℕ, suc, ◌<◌, ◌≡◌, refl, String, Bool, true, false, Option, none, some, List, [], ◌∷◌, ◌++◌,
  length, get_or-append_last, set-append_last, string_eq,
}
use durabletask_rs.Prelude.Int.{ℤ, pos, i32_max, int_eq}
use durabletask_rs.Prelude.HashMap.{HashMap, insert, lookup}
use durabletask_rs.Prelude.Outcome.{Outcome, Panic, returns, panics, ◌>>=◌, unwrap_none}
use durabletask_rs.Proto.{Timestamp, OrchestratorAction}
use durabletask_rs.Task.{complete, poll_task, new_task}
use durabletask_rs.Types.Context.{Host, Events, start_task, signal_task, take_event}
use durabletask_rs.Types.Async.{Async, await_task, poll_async, poll_with, ask_signal, output, abort}
use durabletask_rs.Types.Function.{OrchestratorResult}
use durabletask_rs.Executor.Context.{OrchestrationExecutorContext, drain, push_back}
use durabletask_rs.Executor.Poll.{poll_unwrap, completion_action}
use durabletask_rs.Sequential.{Request, request_action, start_request}
use durabletask_rs.Sequential.Poll.{task_on, fresh, i32_succ_below, poll_ask, poll_task-fresh}
use durabletask_rs.Sequential.Round.{context, without_only}
use durabletask_rs.Sequential.Reactive.{
  Program, done, call, event, crash, code_of, Kept, put, State, at_call, at_event, at_end, settle,
  on_queue,
}
use durabletask_rs.Sequential.Reactive.Kept.{Agrees, found_as, lookup_kept, Agrees-take_event}

module _ {Chan : Type 0} (host : Host Chan) (id : String) (input : Option String)
    (time : Timestamp) where
  abbrev pub context_with :
      Events
      → HashMap String (List ℕ)
      → OrchestrationExecutorContext Chan
      → OrchestrationExecutorContext Chan
  context_with received waiting c = record c {
    received_events = received;
    pending_events = waiting;
  }

  -- The code of a program about to run.
  abbrev pub running :
      Async (OrchestratorResult String) → ℕ → Events → List Chan → OrchestrationExecutorContext Chan
  running code n received channels =
      context_with received [] (context host id input time n (some code) [] [] [] channels)

  abbrev pub left_action : Bool → Request → ℕ → List (ℤ × OrchestratorAction)
  left_action true q n = []
  left_action false q n = (pos (suc n), request_action host.clock q (pos (suc n))) ∷ []

  -- The executor's context at a state.
  abbrev pub embed : State → Events → List Chan → OrchestrationExecutorContext Chan
  embed (at_call n q k acknowledged kept) received channels = context_with received [] (
      context host id input time (suc n)
        (some (await_task (task_on (length channels)) (λ r. code_of (k r)))) (length channels ∷ [])
        (left_action acknowledged q n) ((pos (suc n), length channels) ∷ [])
        (channels ++ fresh host ∷ []))
  embed (at_event n name k kept) received channels =
      context_with received ((host.to_lowercase name, length channels ∷ []) ∷ []) (
        context host id input time n
          (some (await_task (task_on (length channels)) (λ r. code_of (k r))))
          (length channels ∷ []) [] [] (channels ++ fresh host ∷ []))
  embed (at_end n result kept) received channels =
      record (context_with received [] (
        context host id input time n none []
          ((pos (suc n), completion_action (pos (suc n)) result) ∷ []) [] channels)) {
            sequence_number = pos (suc n);
          }

  abbrev pub kept_of : State → Kept
  kept_of (at_call n q k acknowledged kept) = kept
  kept_of (at_event n name k kept) = kept
  kept_of (at_end n result kept) = kept

  -- The executor comes to where the program does.
  abbrev pub Reaches : Outcome State → Outcome (OrchestrationExecutorContext Chan) → Type 0
  Reaches (panics p) o = o ≡ panics p
  Reaches (returns s) o =
      (received : Events) × (channels : List Chan) × Agrees (kept_of s) received
      × (o ≡ returns (embed s received channels))

  abbrev pub polled :
      Async (OrchestratorResult String)
      → ℕ
      → Events
      → List Chan
      → Outcome (OrchestrationExecutorContext Chan)
  polled code n received channels =
      poll_unwrap host (running code n received channels) >>= λ c. returns (drain host c)

  module _ (name : String) (k : String → Async (OrchestratorResult String)) (n : ℕ)
      (received : Events) (channels : List Chan) where
    abbrev awaiting : Async (OrchestratorResult String)
    awaiting = ask_signal name (λ task. await_task task k)

    -- Nothing is kept: the code waits for the event.
    poll_nothing :
        lookup (host.to_lowercase name) received ≡ none
        → polled awaiting n received channels
          ≡ returns (
              context_with received ((host.to_lowercase name, length channels ∷ []) ∷ []) (
                context host id input time n
                  (some (await_task (task_on (length channels)) k))
                  (length channels ∷ [])
                  []
                  []
                  (channels ++ fresh host ∷ [])))
    unfolding poll_unwrap drain insert poll_async signal_task start_task new_task push_back
    poll_nothing h = rw (poll_async, poll_with, h, poll_task-fresh host channels)

    poll_empty_event :
        (rest : List (Option String))
        → lookup (host.to_lowercase name) received ≡ some (none ∷ rest)
        → polled awaiting n received channels ≡ panics unwrap_none
    unfolding poll_unwrap poll_async signal_task start_task new_task take_event
    poll_empty_event [] h = rw (poll_async, poll_with, h)
    poll_empty_event (d ∷ rest) h = rw (poll_async, poll_with, h)

    -- A kept event is handed to the code at once.
    poll_kept :
        (x : String) (rest : List (Option String))
        → lookup (host.to_lowercase name) received ≡ some (some x ∷ rest)
        → polled awaiting n received channels
          ≡ polled
              (k x)
              n
              (take_event (host.to_lowercase name) (some x ∷ rest) received).1
              (channels ++ host.oneshot.drop_sender (fresh host) ∷ [])
    unfolding poll_unwrap poll_async signal_task start_task new_task take_event complete poll_task
    poll_kept x [] h = rw (
      poll_async,
      poll_with,
      h,
      get_or-append_last channels (fresh host) (fresh host),
      set-append_last channels (fresh host) (host.oneshot.drop_sender (fresh host)),
      without_only (length channels),
    )
    poll_kept x (d ∷ rest) h = rw (
      poll_async,
      poll_with,
      h,
      get_or-append_last channels (fresh host) (fresh host),
      set-append_last channels (fresh host) (host.oneshot.drop_sender (fresh host)),
      without_only (length channels),
    )

  poll_done :
      (result : OrchestratorResult String) (n : ℕ) (received : Events) (channels : List Chan)
      → n < i32_max
      → polled (output result) n received channels
        ≡ returns
            (record (context_with received [] (
              context host id input time n none []
                ((pos (suc n), completion_action (pos (suc n)) result) ∷ [])
                []
                channels)) { sequence_number = pos (suc n) })
  unfolding poll_unwrap drain insert poll_async
  poll_done result n received channels h = rw (i32_succ_below n h)

  poll_crash :
      (p : Panic) (n : ℕ) (received : Events) (channels : List Chan)
      → polled (abort p) n received channels ≡ panics p
  unfolding poll_unwrap poll_async
  poll_crash p n received channels = refl

  poll_call :
      (q : Request) (k : String → Async (OrchestratorResult String)) (n : ℕ) (received : Events)
      (channels : List Chan)
      → n < i32_max
      → polled (start_request q (λ task. await_task task k)) n received channels
        ≡ returns (
            context_with received [] (
              context host id input time
                (suc n)
                (some (await_task (task_on (length channels)) k))
                (length channels ∷ [])
                (left_action false q n)
                ((pos (suc n), length channels) ∷ [])
                (channels ++ fresh host ∷ [])))
  unfolding poll_unwrap drain insert lookup poll_async
  poll_call q k n received channels h = rw (poll_ask host id input received q k n [] channels h)

  -- What a poll comes to where the program awaits an event, by what is kept under its name.
  poll_event :
      (name : String) (k : String → Program) (n : ℕ) (kept : Kept) (received : Events)
      (channels : List Chan) (queue : List (Option String))
      → lookup (host.to_lowercase name) received ≡ found_as queue
      → Agrees kept received
      → ((x : String) (rest : List (Option String)) (channels' : List Chan)
          → Reaches (settle host n (k x) (put (host.to_lowercase name) rest kept)) (
              polled
                (code_of (k x))
                n
                (take_event (host.to_lowercase name) (some x ∷ rest) received).1
                channels'))
      → Reaches
          (on_queue
            (returns (at_event n name k kept))
            (λ x rest. settle host n (k x) (put (host.to_lowercase name) rest kept))
            queue)
          (polled (code_of (event name k)) n received channels)
  poll_event name k n kept received channels [] found agrees step =
      (received, channels, agrees, poll_nothing name (λ r. code_of (k r)) n received channels found)
  poll_event name k n kept received channels (none ∷ rest) found agrees step =
      poll_empty_event name (λ r. code_of (k r)) n received channels rest found
  poll_event name k n kept received channels (some x ∷ rest) found agrees step =
      rw (poll_kept name (λ r. code_of (k r)) n received channels x rest found) (step x rest _)

  -- A poll runs the code as far as the program's meaning goes.
  pub poll_settle :
      (s : Program) (n : ℕ) (kept : Kept) (received : Events) (channels : List Chan)
      → n < i32_max
      → Agrees kept received
      → Reaches (settle host n s kept) (polled (code_of s) n received channels)
  unfolding settle
  poll_settle (done result) n kept received channels h agrees =
      (received, channels, agrees, poll_done result n received channels h)
  poll_settle (crash p) n kept received channels h agrees = poll_crash p n received channels
  poll_settle (call q k) n kept received channels h agrees =
      (received, channels, agrees, poll_call q (λ r. code_of (k r)) n received channels h)
  poll_settle (event name k) n kept received channels h agrees =
      poll_event name k n kept received channels (kept (host.to_lowercase name))
        (lookup_kept (host.to_lowercase name) kept received agrees) agrees
        (λ x rest channels'.
          poll_settle (k x) n (put (host.to_lowercase name) rest kept) _ channels' h
            (Agrees-take_event (host.to_lowercase name) (some x) rest kept received agrees))
