-- ===== src/Executor/Invariant.antt =====
-- What holds of an executor's context after any history: its maps have an entry per key, an action
-- stands under its own number, and no queue of events or of waiting tasks is empty.
pub mod Code
pub mod Join
pub mod Steps
pub mod Effects
pub mod Run
pub mod Answer
use durabletask_rs.Prelude.{
  ℕ, ◌<◌, ◌≡◌, String, Bool, false, Option, none, some, List, length, All, string_eq,
}
use durabletask_rs.Prelude.Int.{ℤ, int_eq}
use durabletask_rs.Prelude.HashMap.{HashMap}
use durabletask_rs.Prelude.HashMap.All.{IsDistinct}
use durabletask_rs.Prelude.Outcome.{Outcome, returns, panics, ◌>>=◌}
use durabletask_rs.Proto.{OrchestratorAction}
use durabletask_rs.Types.Context.{World, Events}
use durabletask_rs.Executor.Context.{Orchestrator, OrchestrationExecutorContext}

-- A predicate of what is returned; a panic returns nothing.
abbrev pub Holds : {A : Type 0} → (A → Type 0) → Outcome A → Type 0
Holds P (returns a) = P a
Holds P (panics p) = Unit {0}

pub Holds-bind :
    {A B : Type 0} (P : A → Type 0) (Q : B → Type 0) (m : Outcome A) (f : A → Outcome B)
    → Holds P m
    → ((a : A) → P a → Holds Q (f a))
    → Holds Q (m >>= f)
Holds-bind P Q (returns a) f h k = k a h
Holds-bind P Q (panics p) f h k = tt

abbrev pub IsNumbered : ℤ × OrchestratorAction → Type 0
IsNumbered entry = entry.1.id ≡ entry.0

abbrev pub IsFilled : {A : Type 0} → String × List A → Type 0
IsFilled entry = 0 < length entry.1

-- What the executor has yet to take from the orchestrator.
abbrev pub IsSent : Option Orchestrator → Type 0
IsSent none = Unit {0}
IsSent (some o) = All IsNumbered o.octx.actions_tx

-- The parts of a context that the invariant is about: what it says of one is kept where that is.
pub record AreConsistent (is_complete : Bool) (pending_actions : HashMap ℤ OrchestratorAction)
    (pending_tasks : HashMap ℤ ℕ) (received_events : Events)
    (pending_events : HashMap String (List ℕ)) (orchestrator_fn : Option Orchestrator)
    : Type 0 where
  pub running : is_complete ≡ false
  pub numbered : All IsNumbered pending_actions
  pub distinct : IsDistinct pending_actions
  pub distinct_tasks : IsDistinct pending_tasks
  pub filled : All IsFilled received_events
  pub waited : All IsFilled pending_events
  pub sent : IsSent orchestrator_fn

-- The invariant where one part is another.
module _ {b : Bool} {actions : HashMap ℤ OrchestratorAction} {tasks : HashMap ℤ ℕ}
    {received : Events} {waiting : HashMap String (List ℕ)} {o : Option Orchestrator}
    (h : AreConsistent b actions tasks received waiting o) where
  pub with_actions :
      {actions' : HashMap ℤ OrchestratorAction}
      → All IsNumbered actions'
      → IsDistinct actions'
      → AreConsistent b actions' tasks received waiting o
  with_actions numbered distinct = record {
    running = h.running;
    numbered = numbered;
    distinct = distinct;
    distinct_tasks = h.distinct_tasks;
    filled = h.filled;
    waited = h.waited;
    sent = h.sent;
  }

  pub with_tasks :
      {tasks' : HashMap ℤ ℕ} → IsDistinct tasks' → AreConsistent b actions tasks' received waiting o
  with_tasks distinct_tasks = record {
    running = h.running;
    numbered = h.numbered;
    distinct = h.distinct;
    distinct_tasks = distinct_tasks;
    filled = h.filled;
    waited = h.waited;
    sent = h.sent;
  }

  pub with_received :
      {received' : Events}
      → All IsFilled received'
      → AreConsistent b actions tasks received' waiting o
  with_received filled = record {
    running = h.running;
    numbered = h.numbered;
    distinct = h.distinct;
    distinct_tasks = h.distinct_tasks;
    filled = filled;
    waited = h.waited;
    sent = h.sent;
  }

  pub with_waiting :
      {waiting' : HashMap String (List ℕ)}
      → All IsFilled waiting'
      → AreConsistent b actions tasks received waiting' o
  with_waiting waited = record {
    running = h.running;
    numbered = h.numbered;
    distinct = h.distinct;
    distinct_tasks = h.distinct_tasks;
    filled = h.filled;
    waited = waited;
    sent = h.sent;
  }

  pub with_sent :
      {o' : Option Orchestrator} → IsSent o' → AreConsistent b actions tasks received waiting o'
  with_sent sent = record {
    running = h.running;
    numbered = h.numbered;
    distinct = h.distinct;
    distinct_tasks = h.distinct_tasks;
    filled = h.filled;
    waited = h.waited;
    sent = sent;
  }

module _ {Chan : Type 0} where
  -- The same of the world that an orchestrator's code runs on.
  abbrev pub IsSound : World Chan → Type 0
  IsSound w = All IsNumbered w.octx.actions_tx × All IsFilled w.received_events

  abbrev pub IsConsistent : OrchestrationExecutorContext Chan → Type 0
  IsConsistent c =
      AreConsistent c.is_complete c.pending_actions c.pending_tasks c.received_events
        c.pending_events c.orchestrator_fn
