-- ===== src/Tests/Signals.antt =====
-- The theorems on external events, at contexts in which events are kept or awaited.
use durabletask_rs.Prelude.{
  ℕ, ◌≡◌, refl, String, Option, none, some, List, [], ◌∷◌, ◌++◌, ◌==◌, if◌then◌else◌, string_eq,
}
use durabletask_rs.Prelude.HashMap.{HashMap, lookup}
use durabletask_rs.Prelude.Outcome.{returns}
use durabletask_rs.Task.{CompletableTask, ready, poll_task}
use durabletask_rs.Types.Context.{World, Events, new_context, signal_task}
use durabletask_rs.Executor.Context.{new_executor_context}
use durabletask_rs.Executor.Event.{pop_waiter}
use durabletask_rs.Executor.Signals.{
  queue_of, raise_all, raise_all-queue_of, signal_task-head, queue_of-pop_waiter,
}
use durabletask_rs.Tests.Host.{ChanState, host}

abbrev two_inputs : List (Option String)
two_inputs = some "1" ∷ some "2" ∷ []

none_waits : lookup "approval" (new_executor_context {Chan = ChanState}).pending_events ≡ none
unfolding lookup new_executor_context
none_waits = refl

raise_all-queue_of_example :
    (received : Events) × (raise_all host "approval" two_inputs new_executor_context
      ≡ returns (record (new_executor_context {Chan = ChanState}) { received_events = received }))
    × ((other : String)
        → queue_of other received ≡ (
            if "approval" == other
            then queue_of other (new_executor_context {Chan = ChanState}).received_events
              ++ two_inputs
            else queue_of other (new_executor_context {Chan = ChanState}).received_events))
raise_all-queue_of_example =
    raise_all-queue_of host "approval" two_inputs new_executor_context none_waits

abbrev world : World ChanState
world = record {
  octx = new_context "id" none;
  received_events = ("approval", two_inputs) ∷ [];
  channels = [];
}

kept : lookup "approval" world.received_events ≡ some two_inputs
unfolding lookup
kept = refl

signal_task-head_example :
    (task : CompletableTask) × (w' : World ChanState) × (signal_task host "approval" world
      ≡ returns (task, w'))
    × (poll_task host.oneshot task w'.channels
        ≡ returns (ready "1", record task { result = none }, w'.channels))
    × ((other : String)
        → queue_of other w'.received_events
          ≡ (if "approval" == other then some "2" ∷ [] else queue_of other world.received_events))
signal_task-head_example = signal_task-head host "approval" "1" (some "2" ∷ []) world kept

abbrev waiting : HashMap String (List ℕ)
waiting = ("approval", 0 ∷ 3 ∷ []) ∷ ("other", 1 ∷ []) ∷ []

queue_of-pop_waiter_example :
    ((pop_waiter "approval" (0 ∷ 3 ∷ []) waiting).0 ≡ some 0)
    × (queue_of "other" (pop_waiter "approval" (0 ∷ 3 ∷ []) waiting).1
        ≡ (if ◌==◌ {K = String} "approval" "other" then 3 ∷ [] else queue_of "other" waiting))
queue_of-pop_waiter_example = queue_of-pop_waiter "approval" "other" 0 (3 ∷ []) waiting
