-- ===== src/Sequential/Reactive.antt =====
-- Orchestrators that await requests and events, one after another, and what they come to as replies
-- and events reach them in any order. Their meaning is given with no executor, channel or queue map.
pub mod Kept
pub mod Poll
pub mod Round
pub mod Early
pub mod Step
pub mod Run
use durabletask_rs.Prelude.{
  ℕ, suc, ◌≡◌, String, Bool, true, false, Option, none, some, List, [], ◌∷◌, ◌++◌, ◌==◌, string_eq,
  if◌then◌else◌,
}
use durabletask_rs.Prelude.Int.{pos}
use durabletask_rs.Prelude.Outcome.{Outcome, Panic, returns, panics, unwrap_none}
use durabletask_rs.Proto.{Timestamp, HistoryEvent, OrchestratorAction}
use durabletask_rs.Internal.Events.{new_event_raised_event}
use durabletask_rs.Types.Context.{Host}
use durabletask_rs.Types.Async.{Async, output, abort, ask_signal, await_task}
use durabletask_rs.Types.Function.{OrchestratorResult}
use durabletask_rs.Executor.Poll.{completion_action}
use durabletask_rs.Sequential.{
  Request, start_request, reply, request_action, asked_event, replied_event,
}

pub data Program : Type 0 where
  done : OrchestratorResult String → Program
  call : Request → (String → Program) → Program
  -- `await_signal_event`, up to the text of the event
  event : String → (String → Program) → Program
  crash : Panic → Program

abbrev pub code_of : Program → Async (OrchestratorResult String)
code_of (done result) = output result
code_of (crash p) = abort p
code_of (call q k) = start_request q (λ task. await_task task (λ r. code_of (k r)))
code_of (event name k) = ask_signal name (λ task. await_task task (λ r. code_of (k r)))

-- What was raised under a name and not yet awaited, oldest first.
abbrev pub Kept : Type 0
Kept = String → List (Option String)

abbrev pub put : String → List (Option String) → Kept → Kept
put name queue kept other = if name == other then queue else kept other

-- Where a program waits, with the number of the requests that it made before: at a request, which is
-- acknowledged or not, at an event, or at its end.
pub data State : Type 0 where
  at_call : ℕ → Request → (String → Program) → Bool → Kept → State
  at_event : ℕ → String → (String → Program) → Kept → State
  at_end : ℕ → OrchestratorResult String → Kept → State

pub data Stimulus : Type 0 where
  confirm : Stimulus
  answer : String → Stimulus
  raise : String → Option String → Stimulus

-- An awaited name with nothing kept, or with an oldest event, which has an input or does not.
abbrev pub on_queue :
    Outcome State
    → (String → List (Option String) → Outcome State)
    → List (Option String)
    → Outcome State
on_queue waits takes [] = waits
on_queue waits takes (none ∷ rest) = panics unwrap_none
on_queue waits takes (some x ∷ rest) = takes x rest

module _ {Chan : Type 0} (host : Host Chan) where
  -- A program runs until it waits: an event that was kept is taken at once.
  unfoldable pub settle : ℕ → Program → Kept → Outcome State
  settle n (done result) kept = returns (at_end n result kept)
  settle n (crash p) kept = panics p
  settle n (call q k) kept = returns (at_call n q k false kept)
  settle n (event name k) kept =
      on_queue (returns (at_event n name k kept))
        (λ x rest. settle n (k x) (put (host.to_lowercase name) rest kept))
        (kept (host.to_lowercase name))

  abbrev pub keep : String → Option String → Kept → Kept
  keep name input kept =
      put (host.to_lowercase name) (kept (host.to_lowercase name) ++ input ∷ []) kept

  -- The event that is awaited comes, with an input or without.
  abbrev pub resume : ℕ → (String → Program) → Kept → Option String → Outcome State
  resume n k kept none = panics unwrap_none
  resume n k kept (some x) = settle n (k x) kept

  -- An event at a program that awaits one, by whether it is that one.
  abbrev pub on_raise :
      ℕ → String → (String → Program) → Kept → String → Option String → Bool → Outcome State
  on_raise n name k kept raised input true = resume n k kept input
  on_raise n name k kept raised input false = returns (at_event n name k (keep raised input kept))

  abbrev pub react : State → Stimulus → Outcome State
  react (at_call n q k acknowledged kept) confirm = returns (at_call n q k true kept)
  react (at_call n q k acknowledged kept) (answer r) = settle (suc n) (k (reply q r)) kept
  react (at_call n q k acknowledged kept) (raise name input) =
      returns (at_call n q k acknowledged (keep name input kept))
  react (at_event n name k kept) (raise raised input) =
      on_raise n name k kept raised input (host.to_lowercase name == host.to_lowercase raised)
  react (at_end n result kept) (raise name input) = returns (at_end n result (keep name input kept))
  react state stimulus = returns state

  -- A request is acknowledged before its answer comes, and neither comes anywhere else.
  abbrev pub Expects : State → Stimulus → Type 0
  Expects (at_call n q k false kept) (answer r) = ⊥
  Expects (at_event n name k kept) confirm = ⊥
  Expects (at_event n name k kept) (answer r) = ⊥
  Expects (at_end n result kept) confirm = ⊥
  Expects (at_end n result kept) (answer r) = ⊥
  Expects state stimulus = Unit {0}

  -- The sidecar's event for a stimulus.
  module _ (now : Timestamp) where
    abbrev pub told : State → Stimulus → HistoryEvent
    told (at_call n q k acknowledged kept) confirm = asked_event host.clock now q (pos (suc n))
    told (at_call n q k acknowledged kept) (answer r) =
        replied_event host.clock now q (pos (suc n)) r
    told state (raise name input) = new_event_raised_event now name input
    told state stimulus = new_event_raised_event now "" none

  -- The actions that are due.
  abbrev pub due_at : State → List OrchestratorAction
  due_at (at_call n q k false kept) = request_action host.clock q (pos (suc n)) ∷ []
  due_at (at_call n q k true kept) = []
  due_at (at_event n name k kept) = []
  due_at (at_end n result kept) = completion_action (pos (suc n)) result ∷ []
