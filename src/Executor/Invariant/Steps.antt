-- ===== src/Executor/Invariant/Steps.antt =====
-- The invariant through a poll of the orchestrator, and through the drain behind each event.
use durabletask_rs.Prelude.{
  ℕ, ◌≡◌, refl, String, Bool, false, Option, none, some, List, [], ◌∷◌, ◌++◌, length-append, All,
  arith, string_eq, if◌then◌else◌,
}
use durabletask_rs.Prelude.Int.{ℤ, int_eq}
use durabletask_rs.Prelude.HashMap.{HashMap, lookup}
use durabletask_rs.Prelude.HashMap.All.{All-insert, insert-IsDistinct}
use durabletask_rs.Prelude.Outcome.{Outcome, returns, panics, ◌>>=◌}
use durabletask_rs.Prelude.Result.{ok, err}
use durabletask_rs.Internal.Actions.{new_complete_orchestration_action}
use durabletask_rs.Proto.{OrchestratorAction}
use durabletask_rs.Types.Context.{Host, World, OrchestratorContext}
use durabletask_rs.Types.Async.{Async, Progress, finished, suspended, poll_async}
use durabletask_rs.Types.Function.{OrchestratorResult, OrchestratorResultValue, value}
use durabletask_rs.Executor.Context.{
  Orchestrator, OrchestrationExecutorContext, insert_action, drain_actions, drain_tasks,
  drain_events, drain_from, drain, push_back, or_empty, next_sequence_number,
}
use durabletask_rs.Executor.Poll.{
  completion_action, world_of, after_poll, on_progress, poll_code, poll_unpin, on_result, poll_fn,
  unwrapped, poll_unwrap,
}
use durabletask_rs.Executor.Invariant.{
  Holds, Holds-bind, IsNumbered, IsFilled, IsSound, IsSent, IsConsistent, with_actions, with_tasks,
  with_received, with_waiting, with_sent,
}
use durabletask_rs.Executor.Invariant.Join.{poll_async-IsSound}

completion_action-id : (id : ℤ) (r : OrchestratorResult String) → (completion_action id r).id ≡ id
unfolding completion_action new_complete_orchestration_action
completion_action-id id (ok OrchestratorResultValue.continue_as_new) = refl
completion_action-id id (ok (value output)) = refl
completion_action-id id (err e) = refl

pub push_back-IsFilled :
    {A : Type 0} (name : String) (a : A) (queues : HashMap String (List A))
    → All IsFilled queues
    → All IsFilled (push_back name a queues)
unfolding push_back
push_back-IsFilled name a queues h =
    let queue = or_empty (lookup name queues) in
    All-insert IsFilled name (queue ++ a ∷ []) queues (omega (arith, length-append queue (a ∷ [])))
      h

module _ {Chan : Type 0} where
  pub insert_action-IsConsistent :
      (id : ℤ) (a : OrchestratorAction) (c : OrchestrationExecutorContext Chan)
      → a.id ≡ id
      → IsConsistent c
      → IsConsistent (insert_action id a c)
  unfolding insert_action
  insert_action-IsConsistent id a c own h =
      with_actions h (All-insert IsNumbered id a c.pending_actions own h.numbered)
        (insert-IsDistinct id a c.pending_actions h.distinct)

module _ {Chan : Type 0} (host : Host Chan) where
  pub after_poll-IsConsistent :
      (c : OrchestrationExecutorContext Chan) (w : World Chan)
      (code : Option (Async (OrchestratorResult String)))
      → IsConsistent c
      → IsSound w
      → IsConsistent (after_poll host c w code)
  after_poll-IsConsistent c w none h s = with_sent (with_received h s.1) s.0
  after_poll-IsConsistent c w (some code) h s = with_sent (with_received h s.1) s.0

  on_progress-IsConsistent :
      (c : OrchestrationExecutorContext Chan)
      (p : Progress (OrchestratorResult String) × World Chan)
      → IsConsistent c
      → IsSound p.1
      → IsConsistent (on_progress host c p).1
  on_progress-IsConsistent c (finished r, w) h s = after_poll-IsConsistent c w none h s
  on_progress-IsConsistent c (suspended code, w) h s = after_poll-IsConsistent c w (some code) h s

  poll_code-IsConsistent :
      (c : OrchestrationExecutorContext Chan) (octx : OrchestratorContext)
      (code : Option (Async (OrchestratorResult String)))
      → IsConsistent c
      → All IsNumbered octx.actions_tx
      → Holds (λ p. IsConsistent p.1) (poll_code host c octx code)
  poll_code-IsConsistent c octx none h s = tt
  poll_code-IsConsistent c octx (some code) h s =
      Holds-bind (λ p. IsSound p.1) (λ p. IsConsistent p.1)
        (poll_async host code (world_of host octx c)) _
        (poll_async-IsSound host code _ ((s, h.filled)))
        (λ p sound. on_progress-IsConsistent c p h sound)

  pub poll_unpin-IsConsistent :
      (c : OrchestrationExecutorContext Chan) (o : Orchestrator)
      → IsConsistent c
      → All IsNumbered o.octx.actions_tx
      → Holds (λ p. IsConsistent p.1) (poll_unpin host c o)
  unfolding poll_unpin
  poll_unpin-IsConsistent c o h s = poll_code-IsConsistent c o.octx o.code h s

  on_result-IsConsistent :
      (p : Option (OrchestratorResult String) × OrchestrationExecutorContext Chan)
      → IsConsistent p.1
      → IsConsistent (on_result host p)
  unfolding next_sequence_number
  on_result-IsConsistent (none, c) h = h
  on_result-IsConsistent (some r, c) h =
      let (n, c') = next_sequence_number c in
      insert_action-IsConsistent n (completion_action n r) c' (completion_action-id n r) h

  polled-IsConsistent :
      (c : OrchestrationExecutorContext Chan) (o : Option Orchestrator)
      → IsConsistent c
      → IsSent o
      → Holds IsConsistent (poll_fn host c o >>= unwrapped host)
  polled-IsConsistent c none h s = tt
  polled-IsConsistent c (some o) h s = go (poll_unpin host c o) (poll_unpin-IsConsistent c o h s)
    where
      go :
          (m : Outcome (Option (OrchestratorResult String) × OrchestrationExecutorContext Chan))
          → Holds (λ p. IsConsistent p.1) m
          → Holds IsConsistent (m >>= (λ p. returns (ok (on_result host p))) >>= unwrapped host)
      go (returns p) k = on_result-IsConsistent p k
      go (panics p) k = tt

  pub poll_unwrap-IsConsistent :
      (c : OrchestrationExecutorContext Chan)
      → IsConsistent c
      → Holds IsConsistent (poll_unwrap host c)
  unfolding poll_unwrap
  poll_unwrap-IsConsistent c h = go c.is_complete h.running
    where
      go :
          (b : Bool)
          → b ≡ false
          → Holds IsConsistent
              ((if b then returns (ok c) else poll_fn host c c.orchestrator_fn) >>= unwrapped host)
      go b e = rw e (polled-IsConsistent c c.orchestrator_fn h h.sent)

  drain_actions-IsConsistent :
      (xs : List (ℤ × OrchestratorAction)) (c : OrchestrationExecutorContext Chan)
      → All IsNumbered xs
      → IsConsistent c
      → IsConsistent (drain_actions xs c)
  unfolding drain_actions
  drain_actions-IsConsistent [] c s h = h
  drain_actions-IsConsistent ((n, a) ∷ xs) c s h =
      let i = insert_action-IsConsistent n a c s.0 h in drain_actions-IsConsistent xs _ s.1 i

  drain_tasks-IsConsistent :
      (xs : List (ℤ × ℕ)) (c : OrchestrationExecutorContext Chan)
      → IsConsistent c
      → IsConsistent (drain_tasks host xs c)
  unfolding drain_tasks
  drain_tasks-IsConsistent [] c h = h
  drain_tasks-IsConsistent ((n, t) ∷ xs) c h =
      drain_tasks-IsConsistent xs _
        (with_tasks h (insert-IsDistinct n t c.pending_tasks h.distinct_tasks))

  drain_events-IsConsistent :
      (xs : List (String × ℕ)) (c : OrchestrationExecutorContext Chan)
      → IsConsistent c
      → IsConsistent (drain_events xs c)
  unfolding drain_events
  drain_events-IsConsistent [] c h = h
  drain_events-IsConsistent ((n, t) ∷ xs) c h =
      drain_events-IsConsistent xs _
        (with_waiting h (push_back-IsFilled n t c.pending_events h.waited))

  drain_from-IsConsistent :
      (o : Option Orchestrator) (c : OrchestrationExecutorContext Chan)
      → IsSent o
      → IsConsistent c
      → IsConsistent (drain_from host o c)
  drain_from-IsConsistent none c s h = h
  drain_from-IsConsistent (some o) c s h =
      let h₁ = drain_actions-IsConsistent o.octx.actions_tx c s h in
      let h₂ = drain_tasks-IsConsistent o.octx.tasks_tx _ h₁ in
      let i = drain_events-IsConsistent o.octx.events_tx _ h₂ in with_sent i tt

  pub drain-IsConsistent :
      (c : OrchestrationExecutorContext Chan) → IsConsistent c → IsConsistent (drain host c)
  unfolding drain
  drain-IsConsistent c h = drain_from-IsConsistent c.orchestrator_fn c h.sent h
