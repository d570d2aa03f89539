-- ===== src/Executor/Invariant/Effects.antt =====
-- The invariant through what each event does.
use durabletask_rs.Prelude.{
  ℕ, refl, String, Bool, true, false, Option, none, some, List, [], ◌∷◌, All, arith, string_eq,
  get_or, if◌then◌else◌,
}
use durabletask_rs.Prelude.Int.{ℤ, int_eq}
use durabletask_rs.Prelude.HashMap.{HashMap, lookup}
use durabletask_rs.Prelude.HashMap.All.{All-insert, All-remove, remove-IsDistinct}
use durabletask_rs.Prelude.Outcome.{Outcome, ◌>>=◌}
use durabletask_rs.Internal.Actions.{new_complete_orchestration_action}
use durabletask_rs.Proto.{terminated, OrchestrationStatus}
use durabletask_rs.Types.Context.{Host, World, new_context}
use durabletask_rs.Types.Async.{Progress, finished, suspended, poll_async}
use durabletask_rs.Types.Function.{OrchestratorResult, OrchestratorFunction}
use durabletask_rs.Executor.Context.{
  Orchestrator, OrchestrationExecutorContext, acknowledge, next_sequence_number, set_complete,
}
use durabletask_rs.Executor.Poll.{world_of, poll_unpin, poll_unwrap}
use durabletask_rs.Executor.Event.{
  terminate, after_send, send_to, unblock, complete_task, pop_waiter, signal, raise_to, raise_event,
  started, start_with, poll_ignored,
}
use durabletask_rs.Executor.Invariant.{
  Holds, Holds-bind, IsNumbered, IsFilled, IsSound, IsSent, IsConsistent, with_actions, with_tasks,
  with_received, with_waiting, with_sent,
}
use durabletask_rs.Executor.Invariant.Join.{poll_async-IsSound}
use durabletask_rs.Executor.Invariant.Steps.{
  push_back-IsFilled, insert_action-IsConsistent, poll_unpin-IsConsistent, poll_unwrap-IsConsistent,
}

pop_waiter-IsFilled :
    (name : String) (queue : List ℕ) (events : HashMap String (List ℕ))
    → All IsFilled events
    → All IsFilled (pop_waiter name queue events).1
pop_waiter-IsFilled name [] events h = All-remove IsFilled name events h
pop_waiter-IsFilled name (t ∷ []) events h = All-remove IsFilled name events h
pop_waiter-IsFilled name (t ∷ u ∷ rest) events h =
    All-insert IsFilled name (u ∷ rest) events (omega arith) h

module _ {Chan : Type 0} where
  pub acknowledge-IsConsistent :
      (id : ℤ) (c : OrchestrationExecutorContext Chan)
      → IsConsistent c
      → IsConsistent (acknowledge id c)
  unfolding acknowledge
  acknowledge-IsConsistent id c h =
      with_actions h (All-remove IsNumbered id c.pending_actions h.numbered)
        (remove-IsDistinct id c.pending_actions h.distinct)

  set_complete-IsConsistent :
      (status : OrchestrationStatus) (c : OrchestrationExecutorContext Chan)
      → IsConsistent c
      → IsConsistent (set_complete status c)
  unfolding set_complete
  set_complete-IsConsistent status c h = go c.is_complete
    where
      go : (b : Bool) → IsConsistent (if b then c else record c { completion_status = some status })
      go true = h
      go false = h

  next_sequence_number-IsConsistent :
      (c : OrchestrationExecutorContext Chan)
      → IsConsistent c
      → IsConsistent (next_sequence_number c).1
  unfolding next_sequence_number
  next_sequence_number-IsConsistent c h = h

  pub terminate-IsConsistent :
      (c : OrchestrationExecutorContext Chan) → IsConsistent c → IsConsistent (terminate c)
  unfolding terminate new_complete_orchestration_action
  terminate-IsConsistent c h =
      insert_action-IsConsistent _ _ (next_sequence_number (set_complete terminated c)).1 refl (
        next_sequence_number-IsConsistent (set_complete terminated c)
          (set_complete-IsConsistent terminated c h))

module _ {Chan : Type 0} (host : Host Chan) where
  send_to-IsConsistent :
      (task : ℕ) (input : Option String) (c : OrchestrationExecutorContext Chan)
      → IsConsistent c
      → Holds IsConsistent (send_to host task input c)
  unfolding send_to
  send_to-IsConsistent task input c h =
      go (host.oneshot.send input (get_or c.channels task host.oneshot.channel))
    where
      go : (answer : Option Chan) → Holds IsConsistent (after_send host c task answer)
      go none = tt
      go (some chan) = h

  unblock-IsConsistent :
      (task : Option ℕ) (result : Option String) (c : OrchestrationExecutorContext Chan)
      → IsConsistent c
      → Holds IsConsistent (unblock host task result c)
  unblock-IsConsistent none result c h = h
  unblock-IsConsistent (some task) none c h = h
  unblock-IsConsistent (some task) (some r) c h = send_to-IsConsistent task (some r) c h

  pub complete_task-IsConsistent :
      (id : ℤ) (result : Option String) (c : OrchestrationExecutorContext Chan)
      → IsConsistent c
      → Holds IsConsistent (complete_task host id result c)
  unfolding complete_task
  complete_task-IsConsistent id result c h =
      unblock-IsConsistent (lookup id c.pending_tasks) result _
        (with_tasks h (remove-IsDistinct id c.pending_tasks h.distinct_tasks))

  signal-IsConsistent :
      (task : Option ℕ) (input : Option String) (c : OrchestrationExecutorContext Chan)
      → IsConsistent c
      → Holds IsConsistent (signal host task input c)
  signal-IsConsistent none input c h = tt
  signal-IsConsistent (some task) input c h = send_to-IsConsistent task input c h

  pub then_poll :
      (m : Outcome (OrchestrationExecutorContext Chan))
      → Holds IsConsistent m
      → Holds IsConsistent (m >>= poll_unwrap host)
  then_poll m h =
      Holds-bind IsConsistent IsConsistent m (poll_unwrap host) h (poll_unwrap-IsConsistent host)

  raise_to-IsConsistent :
      (waiting : Option (List ℕ)) (name : String) (input : Option String)
      (c : OrchestrationExecutorContext Chan)
      → IsConsistent c
      → Holds IsConsistent (raise_to host waiting name input c)
  raise_to-IsConsistent none name input c h =
      with_received h (push_back-IsFilled name input c.received_events h.filled)
  raise_to-IsConsistent (some queue) name input c h = then_poll _ (
      signal-IsConsistent (pop_waiter name queue c.pending_events).0 input _
        (with_waiting h (pop_waiter-IsFilled name queue c.pending_events h.waited)))

  pub raise_event-IsConsistent :
      (name : String) (input : Option String) (c : OrchestrationExecutorContext Chan)
      → IsConsistent c
      → Holds IsConsistent (raise_event host name input c)
  unfolding raise_event
  raise_event-IsConsistent name input c h =
      raise_to-IsConsistent (lookup (host.to_lowercase name) c.pending_events)
        (host.to_lowercase name) input c h

  started-IsConsistent :
      (c : OrchestrationExecutorContext Chan)
      (p : Progress (OrchestratorResult String) × World Chan)
      → IsConsistent c
      → IsSound p.1
      → IsConsistent (started host c p)
  started-IsConsistent c (finished r, w) h s = with_received h s.1
  started-IsConsistent c (suspended code, w) h s = with_sent (with_received h s.1) s.0

  pub start_with-IsConsistent :
      (id : String) (input : Option String) (c : OrchestrationExecutorContext Chan)
      (f : Option OrchestratorFunction)
      → IsConsistent c
      → Holds IsConsistent (start_with host id input c f)
  unfolding new_context
  start_with-IsConsistent id input c none h = h
  start_with-IsConsistent id input c (some f) h =
      Holds-bind (λ p. IsSound p.1) IsConsistent
        (poll_async host (f (new_context id input)) (world_of host (new_context id input) c)) _
        (poll_async-IsSound host _ _ ((tt, h.filled))) (λ p sound. started-IsConsistent c p h sound)

  pub poll_ignored-IsConsistent :
      (c : OrchestrationExecutorContext Chan) (o : Option Orchestrator)
      → IsConsistent c
      → IsSent o
      → Holds IsConsistent (poll_ignored host c o)
  poll_ignored-IsConsistent c none h s = h
  poll_ignored-IsConsistent c (some o) h s =
      Holds-bind (λ p. IsConsistent p.1) IsConsistent (poll_unpin host c o) _
        (poll_unpin-IsConsistent host c o h s) (λ p k. k)
