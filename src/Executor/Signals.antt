-- ===== src/Executor/Signals.antt =====
-- External events: per name, what was raised and not yet awaited is a queue, and so are the tasks that
-- wait.
use durabletask_rs.Prelude.{
  ℕ, ◌≡◌, refl, sym, ap, ◌∙◌, String, Bool, true, false, Option, none, some, List, [], ◌∷◌, ◌++◌,
  ◌==◌, if◌then◌else◌, string_eq, arith, get_or, set, Bool-cases, inl, inr,
}
use mathlib.Core.List.{append_assoc, append-nil}
use durabletask_rs.Prelude.HashMap.{HashMap, lookup, lookup-insert, lookup-remove}
use durabletask_rs.Prelude.Outcome.{Outcome, returns, ◌>>=◌}
use durabletask_rs.Task.{CompletableTask, ready, poll_task, complete}
use durabletask_rs.Types.Context.{Host, World, Events, signal_task, take_event, start_task}
use durabletask_rs.Executor.Context.{OrchestrationExecutorContext, or_empty, push_back}
use durabletask_rs.Executor.Event.{pop_waiter, raise_event}

-- The queue of a name; a name that the map does not hold has an empty one.
abbrev pub queue_of : {A : Type 0} → String → HashMap String (List A) → List A
queue_of name queues = or_empty (lookup name queues)

pub queue_of-push_back :
    {A : Type 0} (name other : String) (a : A) (queues : HashMap String (List A))
    → queue_of other (push_back name a queues)
      ≡ (if name == other then queue_of name queues ++ a ∷ [] else queue_of other queues)
unfolding push_back
queue_of-push_back name other a queues =
    rw (lookup-insert name other (queue_of name queues ++ a ∷ []) queues) (ground arith)

-- Taking an event takes the oldest one of its name, and leaves the queues of the other names.
pub queue_of-take_event :
    (name other : String) (e : Option String) (rest : List (Option String)) (events : Events)
    → ((take_event name (e ∷ rest) events).0 ≡ some e)
      × (queue_of other (take_event name (e ∷ rest) events).1
          ≡ (if name == other then rest else queue_of other events))
unfolding take_event
queue_of-take_event name other e [] events =
    (refl, rw (lookup-remove name other events) (ground arith))
queue_of-take_event name other e (d ∷ rest) events =
    (refl, rw (lookup-insert name other (d ∷ rest) events) (ground arith))

-- The task that has waited longest for an event is unblocked by it, and the tasks that wait for the
-- events of other names go on waiting.
pub queue_of-pop_waiter :
    (name other : String) (task : ℕ) (rest : List ℕ) (waiting : HashMap String (List ℕ))
    → ((pop_waiter name (task ∷ rest) waiting).0 ≡ some task)
      × (queue_of other (pop_waiter name (task ∷ rest) waiting).1
          ≡ (if name == other then rest else queue_of other waiting))
queue_of-pop_waiter name other task [] waiting =
    (refl, rw (lookup-remove name other waiting) (ground arith))
queue_of-pop_waiter name other task (u ∷ rest) waiting =
    (refl, rw (lookup-insert name other (u ∷ rest) waiting) (ground arith))

same_queue : {A : Type 0} (b : Bool) (queue : List A) → queue ≡ (if b then queue ++ [] else queue)
same_queue true queue = sym (append-nil queue)
same_queue false queue = refl

-- An event at the end of its queue stands before the events that follow it.
one_more :
    (name other : String) (input : Option String) (inputs : List (Option String)) (events : Events)
    → (if name == other
        then queue_of other (push_back name input events) ++ inputs
        else queue_of other (push_back name input events))
      ≡ (if name == other then queue_of other events ++ input ∷ inputs else queue_of other events)
one_more name other input inputs events =
    rw (queue_of-push_back name other input events) (elim (Bool-cases (name == other)) [
      | inl same ↦ rw same (
          ap (λ (n : String). queue_of n events ++ input ∷ [] ++ inputs)
            ((string_eq.eq_iff name other).0 same)
          ∙ append_assoc (queue_of other events) (input ∷ []) inputs)
      | inr differs ↦ rw differs refl
    ])

module _ {Chan : Type 0} (host : Host Chan) where
  -- An event with no task to wait for it goes to the end of its name's queue; the names of the event
  -- and of the queue are compared in lower case.
  raise_event-kept :
      (name : String) (input : Option String) (c : OrchestrationExecutorContext Chan)
      → lookup (host.to_lowercase name) c.pending_events ≡ none
      → raise_event host name input c
        ≡ returns (record c {
          received_events = push_back (host.to_lowercase name) input c.received_events;
        })
  unfolding raise_event
  raise_event-kept name input c h = rw h refl

  -- Events of one name, raised one after another.
  abbrev pub raise_all :
      String
      → List (Option String)
      → OrchestrationExecutorContext Chan
      → Outcome (OrchestrationExecutorContext Chan)
  raise_all name [] c = returns c
  raise_all name (input ∷ inputs) c = raise_event host name input c >>= raise_all name inputs

  -- Events that come before a task waits for their name are all kept, in the order in which they
  -- came, behind those that were kept before; the other names' queues stay.
  pub raise_all-queue_of :
      (name : String) (inputs : List (Option String)) (c : OrchestrationExecutorContext Chan)
      → lookup (host.to_lowercase name) c.pending_events ≡ none
      → (received : Events) × (raise_all name inputs c
          ≡ returns (record c { received_events = received }))
        × ((other : String)
            → queue_of other received ≡ (
                if host.to_lowercase name == other
                then queue_of other c.received_events ++ inputs
                else queue_of other c.received_events))
  raise_all-queue_of name [] c h =
      (c.received_events, refl, λ other. same_queue (host.to_lowercase name == other) _)
  raise_all-queue_of name (input ∷ inputs) c h =
      let kept = push_back (host.to_lowercase name) input c.received_events in
      let (received, e, q) =
        raise_all-queue_of name inputs (record c { received_events = kept }) h in
      (
        received,
        rw (raise_event-kept name input c h) e,
        λ other. q other ∙ one_more (host.to_lowercase name) other input inputs c.received_events,
      )

  -- Code that asks for a signal whose name has kept events gets the oldest of them at once: its task
  -- is ready with that event's input, and only this event leaves the queues.
  pub signal_task-head :
      (name input : String) (rest : List (Option String)) (w : World Chan)
      → lookup (host.to_lowercase name) w.received_events ≡ some (some input ∷ rest)
      → (task : CompletableTask) × (w' : World Chan) × (signal_task host name w
          ≡ returns (task, w'))
        × (poll_task host.oneshot task w'.channels
            ≡ returns (ready input, record task { result = none }, w'.channels))
        × ((other : String)
            → queue_of other w'.received_events ≡ (
                if host.to_lowercase name == other then rest else queue_of other w.received_events))
  unfolding signal_task start_task complete poll_task
  signal_task-head name input rest w h =
      let name' = host.to_lowercase name in
      let (task, unblock, w') = start_task host w in
      let taken = take_event name' (some input ∷ rest) w.received_events in
      let chan = host.oneshot.drop_sender (get_or w'.channels unblock host.oneshot.channel) in
      (
        complete task input,
        record w' { received_events = taken.1; channels = set w'.channels unblock chan },
        rw (h, (queue_of-take_event name' name' (some input) rest w.received_events).0) refl,
        refl,
        λ other. (queue_of-take_event name' other (some input) rest w.received_events).1,
      )
