-- ===== src/Executor/Quiet.antt =====
-- Events that let nothing go on: without an action, a task or a waiter they leave the executor so.
use durabletask_rs.Prelude.{◌≡◌, refl, String, false, Option, none, some, List, [], ◌∷◌}
use durabletask_rs.Prelude.Int.{ℤ, int_eq}
use durabletask_rs.Prelude.HashMap.{lookup, remove}
use durabletask_rs.Prelude.Outcome.{Outcome, returns}
use durabletask_rs.Proto.{
  Timestamp, EventType, HistoryEvent, execution_started, execution_completed, execution_terminated,
  task_completed, sub_orchestration_instance_completed, sub_orchestration_instance_failed,
  timer_fired, orchestrator_started, event_raised,
}
use durabletask_rs.Types.Context.{Host, Events}
use durabletask_rs.Registry.{Registry}
use durabletask_rs.Executor.Context.{
  Orchestrator, OrchestrationExecutorContext, take_sent, drain, push_back, acknowledge,
}
use durabletask_rs.Executor.Event.{process_event, process_type, complete_task, raise_event}
use durabletask_rs.Executor.Execute.{round, process_events}

-- No start, no termination, and no event at which the executor polls: a turn's start, an
-- acknowledgement, an activity's failure, a raised event, and what the executor has no arm for.
abbrev pub IsQuietType : EventType → Type 0
IsQuietType (execution_started e) = ⊥
IsQuietType (execution_completed e) = ⊥
IsQuietType (execution_terminated e) = ⊥
IsQuietType (task_completed e) = ⊥
IsQuietType (sub_orchestration_instance_completed e) = ⊥
IsQuietType (sub_orchestration_instance_failed e) = ⊥
IsQuietType (timer_fired e) = ⊥
IsQuietType _ = Unit {0}

abbrev pub IsQuietTyped : Option EventType → Type 0
IsQuietTyped none = Unit {0}
IsQuietTyped (some t) = IsQuietType t

abbrev pub AreQuiet : List HistoryEvent → Type 0
AreQuiet [] = Unit {0}
AreQuiet (e ∷ es) = IsQuietTyped e.event_type × AreQuiet es

-- What is left of an orchestrator whose channels were emptied, if there is one.
abbrev pub taken : Option Orchestrator → Option Orchestrator
taken none = none
taken (some o) = some (take_sent o)

module _ {Chan : Type 0} where
  -- A context with no action, no task and no waiter.
  abbrev pub resting :
      Option Orchestrator → ℤ → List Chan → Timestamp → Events → OrchestrationExecutorContext Chan
  resting o n channels time received = record {
    is_replaying = false;
    is_complete = false;
    sequence_number = n;
    current_time_utc = time;
    pending_actions = [];
    pending_tasks = [];
    received_events = received;
    pending_events = [];
    orchestrator_fn = taken o;
    completion_status = none;
    channels = channels;
  }

  -- The outcome is a resting context around the same orchestrator.
  abbrev pub Rests :
      Option Orchestrator → ℤ → List Chan → Outcome (OrchestrationExecutorContext Chan) → Type 0
  Rests o n channels m =
      (time : Timestamp) × (received : Events) × (m ≡ returns (resting o n channels time received))

module _ {Chan Act : Type 0} (host : Host Chan) (registry : Registry Act) (id : String)
    (o : Option Orchestrator) (n : ℤ) (channels : List Chan) where
  drain-resting :
      (time : Timestamp) (received : Events)
      → drain host (resting o n channels time received) ≡ resting o n channels time received
  unfolding drain
  drain-resting time received = go o
    where
      go :
          (p : Option Orchestrator)
          → drain host (resting p n channels time received) ≡ resting p n channels time received
      go none = refl
      go (some p) = refl

  process_type-Rests :
      (event : HistoryEvent) (t : EventType) (time : Timestamp) (received : Events)
      → IsQuietType t
      → Rests o n channels
          (process_type host registry id event t (resting o n channels time received))
  unfolding process_type acknowledge complete_task raise_event lookup remove
  process_type-Rests event (execution_started e) time received q = absurd q
  process_type-Rests event (execution_completed e) time received q = absurd q
  process_type-Rests event (execution_terminated e) time received q = absurd q
  process_type-Rests event (task_completed e) time received q = absurd q
  process_type-Rests event (sub_orchestration_instance_completed e) time received q = absurd q
  process_type-Rests event (sub_orchestration_instance_failed e) time received q = absurd q
  process_type-Rests event (timer_fired e) time received q = absurd q
  process_type-Rests event orchestrator_started time received q = go event.timestamp
    where
      go :
          (at : Option Timestamp)
          → Rests o n channels (
              returns (elim at [
                | none ↦ resting o n channels time received
                | some timestamp ↦ record (resting o n channels time received) {
                  current_time_utc = timestamp;
                }
              ]))
      go none = (time, received, refl)
      go (some timestamp) = (timestamp, received, refl)
  process_type-Rests event (event_raised e) time received q =
      (time, push_back (host.to_lowercase e.name) e.input received, refl)
  process_type-Rests event _ time received q = (time, received, refl)

  process_event-Rests :
      (event : HistoryEvent) (time : Timestamp) (received : Events)
      → IsQuietTyped event.event_type
      → Rests o n channels
          (process_event host registry id event (resting o n channels time received))
  unfolding process_event
  process_event-Rests event time received q = go event.event_type q
    where
      go :
          (t : Option EventType)
          → IsQuietTyped t
          → Rests o n channels (elim t [
            | none ↦ returns (resting o n channels time received)
            | some u ↦ process_type host registry id event u (resting o n channels time received)
          ])
      go none h = (time, received, refl)
      go (some t) h = process_type-Rests event t time received h

  -- Quiet events leave a resting context resting.
  pub process_events-Rests :
      (events : List HistoryEvent) (time : Timestamp) (received : Events)
      → AreQuiet events
      → Rests o n channels
          (process_events host registry id events (resting o n channels time received))
  unfolding process_events round
  process_events-Rests [] time received q = (time, received, refl)
  process_events-Rests (e ∷ es) time received (q, qs) =
      let (time', received', p) = process_event-Rests e time received q in
      let (time'', received'', p') = process_events-Rests es time' received' qs in
      (time'', received'', rw (p, drain-resting time' received') p')
