-- ===== src/Executor/Invariant/Code.antt =====
-- The invariant through a run of an orchestrator's code.
use durabletask_rs.Prelude.{
  ℕ, ◌≡◌, refl, String, Option, none, some, List, [], ◌∷◌, All, All-append, arith, string_eq,
}
use durabletask_rs.Prelude.Int.{ℤ, i32_succ}
use durabletask_rs.Prelude.HashMap.{lookup}
use durabletask_rs.Prelude.HashMap.All.{All-insert, All-remove}
use durabletask_rs.Prelude.Outcome.{Outcome, returns, panics}
use durabletask_rs.Proto.{OrchestratorAction}
use durabletask_rs.Internal.Actions.{
  new_schedule_task_action, new_create_timer_action, new_create_sub_orchestration_action,
}
use durabletask_rs.Task.{CompletableTask, Poll, ready, pending, poll_task}
use durabletask_rs.Types.Context.{
  Host, World, Events, send_request, start_task, create_timer, schedule_activity,
  schedule_sub_orchestrator, signal_task, signal_task_from, complete_signal, take_event,
}
use durabletask_rs.Types.Async.{
  AsyncWith, join, output, ask_timer, ask_activity, ask_sub_orchestrator, ask_signal, await_task,
  drop_task, forever, abort, ProgressWith, suspended, Joined, all_done, not_all_done, poll_with,
  on_polled,
}
use durabletask_rs.Executor.Invariant.{Holds, IsNumbered, IsFilled, IsSound}

pub take_event-IsFilled :
    (name : String) (queue : List (Option String)) (events : Events)
    → All IsFilled events
    → All IsFilled (take_event name queue events).1
unfolding take_event
take_event-IsFilled name [] events h = All-remove IsFilled name events h
take_event-IsFilled name (e ∷ []) events h = All-remove IsFilled name events h
take_event-IsFilled name (e ∷ d ∷ rest) events h =
    All-insert IsFilled name (d ∷ rest) events (omega arith) h

module _ {Chan : Type 0} (host : Host Chan) where
  send_request-IsSound :
      (action : ℤ → OrchestratorAction) (w : World Chan)
      → ((id : ℤ) → (action id).id ≡ id)
      → IsSound w
      → IsSound (send_request host action w).1
  unfolding send_request
  send_request-IsSound action w own h =
      (All-append IsNumbered w.actions_tx _ h.0 (own (i32_succ w.sequence_number), tt), h.1)

  complete_signal-IsSound :
      (task : CompletableTask) (unblock : ℕ) (w : World Chan) (event : Option (Option String))
      → IsSound w
      → Holds (λ p. IsSound p.1) (complete_signal host task unblock w event)
  complete_signal-IsSound task unblock w none h = tt
  complete_signal-IsSound task unblock w (some none) h = tt
  complete_signal-IsSound task unblock w (some (some input)) h = h

  signal_task_from-IsSound :
      (name : String) (task : CompletableTask) (unblock : ℕ) (w : World Chan)
      (events : Option (List (Option String)))
      → IsSound w
      → Holds (λ p. IsSound p.1) (signal_task_from host name task unblock w events)
  signal_task_from-IsSound name task unblock w none h = h
  signal_task_from-IsSound name task unblock w (some queue) h =
      let (event, received) = take_event name queue w.received_events in
      complete_signal-IsSound task unblock (record w { received_events = received }) event
        (h.0, take_event-IsFilled name queue w.received_events h.1)

  signal_task-IsSound :
      (name : String) (w : World Chan)
      → IsSound w
      → Holds (λ p. IsSound p.1) (signal_task host name w)
  unfolding signal_task start_task
  signal_task-IsSound name w h =
      signal_task_from-IsSound (host.to_lowercase name) _ _ (start_task host w).2
        (lookup (host.to_lowercase name) w.received_events) h

module _ {Chan J A : Type 0} (host : Host Chan) where
  abbrev AfterPoll : Outcome (ProgressWith J A × World Chan) → Type 0
  AfterPoll = Holds (λ p. IsSound p.1)

  on_polled-IsSound :
      (k : String → AsyncWith J A)
      (go : String → World Chan → Outcome (ProgressWith J A × World Chan)) (w : World Chan)
      (polled : Outcome (Poll String × CompletableTask × List Chan))
      → ((r : String) (w' : World Chan) → IsSound w' → AfterPoll (go r w'))
      → IsSound w
      → AfterPoll (on_polled host k go w polled)
  on_polled-IsSound k go w (panics p) step h = tt
  on_polled-IsSound k go w (returns (ready r, task, channels)) step h = step r _ h
  on_polled-IsSound k go w (returns (pending, task, channels)) step h = h

  module _ (poll_join : J → World Chan → Outcome (Joined J × World Chan))
      (join_sound : (arms : J) (w : World Chan)
        → IsSound w
        → Holds (λ p. IsSound p.1) (poll_join arms w)) where
    signalled-IsSound :
        (k : CompletableTask → AsyncWith J A) (signalled : Outcome (CompletableTask × World Chan))
        → ((t : CompletableTask) (w' : World Chan)
            → IsSound w'
            → AfterPoll (poll_with host poll_join (k t) w'))
        → Holds (λ p. IsSound p.1) signalled
        → AfterPoll (elim signalled [
          | panics p ↦ panics p
          | returns (task, w') ↦ poll_with host poll_join (k task) w'
        ])
    signalled-IsSound k (panics p) step h = tt
    signalled-IsSound k (returns (t, w')) step h = step t w' h

    joined-IsSound :
        (k : String → String → AsyncWith J A) (polled : Outcome (Joined J × World Chan))
        → ((r₁ r₂ : String) (w' : World Chan)
            → IsSound w'
            → AfterPoll (poll_with host poll_join (k r₁ r₂) w'))
        → Holds (λ p. IsSound p.1) polled
        → AfterPoll (elim polled [
          | panics p ↦ panics p
          | returns (all_done r₁ r₂, w') ↦ poll_with host poll_join (k r₁ r₂) w'
          | returns (not_all_done arms', w') ↦ returns (suspended (join arms' k), w')
        ])
    joined-IsSound k (panics p) step h = tt
    joined-IsSound k (returns (all_done r₁ r₂, w')) step h = step r₁ r₂ w' h
    joined-IsSound k (returns (not_all_done arms', w')) step h = h

    -- Whatever the code is.
    pub poll_with-IsSound :
        (code : AsyncWith J A) (w : World Chan)
        → IsSound w
        → AfterPoll (poll_with host poll_join code w)
    unfolding poll_with create_timer schedule_activity schedule_sub_orchestrator
        new_create_timer_action new_schedule_task_action new_create_sub_orchestration_action
    poll_with-IsSound (output a) w h = h
    poll_with-IsSound (ask_timer millis k) w h = poll_with-IsSound (k _) _ (
        send_request-IsSound host (λ id. new_create_timer_action id (host.clock id millis)) w
          (λ id. refl) h)
    poll_with-IsSound (ask_activity name input k) w h =
        poll_with-IsSound (k _) _ (
          send_request-IsSound host (λ id. new_schedule_task_action id name input) w (λ id. refl) h)
    poll_with-IsSound (ask_sub_orchestrator name inst input k) w h = poll_with-IsSound (k _) _ (
        send_request-IsSound host (λ id. new_create_sub_orchestration_action id name inst input) w
          (λ id. refl) h)
    poll_with-IsSound (ask_signal name k) w h =
        signalled-IsSound k (signal_task host name w) (λ t w' h'. poll_with-IsSound (k t) w' h')
          (signal_task-IsSound host name w h)
    poll_with-IsSound (await_task task k) w h =
        on_polled-IsSound k _ w (poll_task host.oneshot task w.channels)
          (λ r w' h'. poll_with-IsSound (k r) w' h') h
    poll_with-IsSound (drop_task task k) w h = poll_with-IsSound k _ h
    poll_with-IsSound (join arms k) w h =
        joined-IsSound k (poll_join arms w) (λ r₁ r₂ w' h'. poll_with-IsSound (k r₁ r₂) w' h')
          (join_sound arms w h)
    poll_with-IsSound forever w h = h
    poll_with-IsSound (abort p) w h = tt
