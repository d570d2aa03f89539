-- ===== src/Sequential/Reactive/Kept.antt =====
-- The executor's map of received events, and the queues that it stands for.
use durabletask_rs.Prelude.{
  ◌≡◌, refl, ap, ◌∙◌, String, Option, none, some, List, [], ◌∷◌, ◌++◌, string_eq, All, arith,
}
use durabletask_rs.Prelude.HashMap.{lookup}
use durabletask_rs.Prelude.HashMap.All.{All-lookup}
use durabletask_rs.Types.Context.{Events, take_event}
use durabletask_rs.Executor.Context.{push_back, or_empty}
use durabletask_rs.Executor.Signals.{queue_of, queue_of-push_back, queue_of-take_event}
use durabletask_rs.Executor.Invariant.{IsFilled}
use durabletask_rs.Executor.Invariant.Code.{take_event-IsFilled}
use durabletask_rs.Executor.Invariant.Steps.{push_back-IsFilled}
use durabletask_rs.Sequential.Reactive.{Kept, put}

pub record Agrees (kept : Kept) (received : Events) : Type 0 where
  pub filled : All IsFilled received
  pub queues : (name : String) → queue_of name received ≡ kept name

pub Agrees-push_back :
    (name : String) (input : Option String) (kept : Kept) (received : Events)
    → Agrees kept received
    → Agrees (put name (kept name ++ input ∷ []) kept) (push_back name input received)
Agrees-push_back name input kept received h = record {
  filled = push_back-IsFilled name input received h.filled;
  queues = λ other.
      rw (queue_of-push_back name other input received, h.queues name, h.queues other) refl;
}

pub Agrees-take_event :
    (name : String) (e : Option String) (rest : List (Option String)) (kept : Kept)
    (received : Events)
    → Agrees kept received
    → Agrees (put name rest kept) (take_event name (e ∷ rest) received).1
Agrees-take_event name e rest kept received h = record {
  filled = take_event-IsFilled name (e ∷ rest) received h.filled;
  queues = λ other. rw ((queue_of-take_event name other e rest received).1, h.queues other) refl;
}

-- What the map holds for a queue: nothing where the queue is empty.
abbrev pub found_as : List (Option String) → Option (List (Option String))
found_as [] = none
found_as (e ∷ rest) = some (e ∷ rest)

pub lookup_kept :
    (name : String) (kept : Kept) (received : Events)
    → Agrees kept received
    → lookup name received ≡ found_as (kept name)
lookup_kept name kept received h = go (lookup name received) refl ∙ ap found_as (h.queues name)
  where
    go :
        (found : Option (List (Option String)))
        → lookup name received ≡ found
        → found ≡ found_as (or_empty found)
    go none at = refl
    go (some []) at =
        absurd (let bad = All-lookup IsFilled name [] received h.filled at in omega arith)
    go (some (e ∷ rest)) at = refl
