-- ===== src/Executor/Poll.antt =====
-- `OrchestrationExecutorFuture::poll` of executor.rs: the orchestrator runs on until it waits, and
-- what it returns becomes the action that completes the orchestration.
use durabletask_rs.Prelude.{ℕ, String, Option, none, some, List, [], ◌∷◌, if◌then◌else◌}
use durabletask_rs.Prelude.Int.{ℤ}
use durabletask_rs.Prelude.Outcome.{
  Outcome, returns, panics, resumed_after_completion, polled_without_orchestration, ◌>>=◌,
}
use durabletask_rs.Prelude.Result.{Result, ok, err}
use durabletask_rs.Proto.{OrchestratorAction, completed, continued_as_new, failed}
use durabletask_rs.Internal.Actions.{new_complete_orchestration_action}
use durabletask_rs.Types.Context.{Host, OrchestratorContext, World}
use durabletask_rs.Types.Async.{Async, Progress, finished, suspended, drop_receiver, poll_async}
use durabletask_rs.Types.Function.{OrchestratorResult, OrchestratorResultValue, value}
use durabletask_rs.Executor.Context.{
  Orchestrator, OrchestrationExecutorContext, next_sequence_number, insert_action,
}

-- The action that an orchestrator's result turns into. The error's text is not passed on.
unfoldable pub completion_action : ℤ → OrchestratorResult String → OrchestratorAction
unfolding new_complete_orchestration_action
completion_action task_id (ok OrchestratorResultValue.continue_as_new) =
    new_complete_orchestration_action task_id continued_as_new none [] none
completion_action task_id (ok (value output)) =
    new_complete_orchestration_action task_id completed (some output) [] none
completion_action task_id (err failure) =
    new_complete_orchestration_action task_id failed none [] none

module _ {Chan : Type 0} (host : Host Chan) where
  -- The receivers that a future holds are dropped with it.
  abbrev pub drop_held : List ℕ → List Chan → List Chan
  drop_held [] channels = channels
  drop_held (i ∷ held) channels = drop_held held (drop_receiver host (some i) channels)

  -- What an orchestrator's code runs on: its context and what the executor shares with it.
  abbrev pub world_of : OrchestratorContext → OrchestrationExecutorContext Chan → World Chan
  world_of octx ctx = record {
    octx = octx;
    received_events = ctx.received_events;
    channels = ctx.channels;
  }

  -- The executor's context after the code ran: the code waits, or it has returned and is dropped.
  abbrev pub after_poll :
      OrchestrationExecutorContext Chan
      → World Chan
      → Option (Async (OrchestratorResult String))
      → OrchestrationExecutorContext Chan
  after_poll ctx w (some code) = record ctx {
    received_events = w.received_events;
    channels = w.channels;
    orchestrator_fn = some (record { code = some code; octx = w.octx });
  }
  after_poll ctx w none = record ctx {
    received_events = w.received_events;
    channels = drop_held w.held w.channels;
    orchestrator_fn = some (record { code = none; octx = record w.octx { held = [] } });
  }

  abbrev pub Polled : Type 0
  Polled = Option (OrchestratorResult String) × OrchestrationExecutorContext Chan

  abbrev pub on_progress :
      OrchestrationExecutorContext Chan → Progress (OrchestratorResult String) × World Chan → Polled
  on_progress ctx (finished result, w) = (some result, after_poll ctx w none)
  on_progress ctx (suspended code, w) = (none, after_poll ctx w (some code))

  abbrev pub poll_code :
      OrchestrationExecutorContext Chan
      → OrchestratorContext
      → Option (Async (OrchestratorResult String))
      → Outcome Polled
  poll_code ctx octx none = panics resumed_after_completion
  poll_code ctx octx (some code) = do
    p ← poll_async host code (world_of octx ctx)
    returns (on_progress ctx p)

  -- `orchestrator_fn.poll_unpin(cx)`: the result, if the orchestrator has returned.
  unfoldable pub poll_unpin : OrchestrationExecutorContext Chan → Orchestrator → Outcome Polled
  unfolding poll_async
  poll_unpin ctx o = poll_code ctx o.octx o.code

  -- What `poll` does with a result.
  abbrev pub on_result :
      Option (OrchestratorResult String) × OrchestrationExecutorContext Chan
      → OrchestrationExecutorContext Chan
  on_result (none, ctx) = ctx
  on_result (some result, ctx) =
      let (task_id, ctx') = next_sequence_number ctx in
      insert_action task_id (completion_action task_id result) ctx'

  abbrev pub poll_fn :
      OrchestrationExecutorContext Chan
      → Option Orchestrator
      → Outcome (Result String (OrchestrationExecutorContext Chan))
  poll_fn ctx none = returns (err "Polled without orchestration future")
  poll_fn ctx (some o) = do p ← poll_unpin ctx o; returns (ok (on_result p))

  unfoldable pub poll :
      OrchestrationExecutorContext Chan
      → Outcome (Result String (OrchestrationExecutorContext Chan))
  unfolding poll_unpin next_sequence_number insert_action completion_action
  poll ctx =
      let polled = poll_fn ctx ctx.orchestrator_fn in
      if ctx.is_complete then returns (ok ctx) else polled

  abbrev pub unwrapped :
      Result String (OrchestrationExecutorContext Chan)
      → Outcome (OrchestrationExecutorContext Chan)
  unwrapped (ok ctx) = returns ctx
  unwrapped (err e) = panics polled_without_orchestration

  -- `self.poll(ctx, cx).unwrap()`
  unfoldable pub poll_unwrap :
      OrchestrationExecutorContext Chan → Outcome (OrchestrationExecutorContext Chan)
  unfolding poll
  poll_unwrap ctx = poll ctx >>= unwrapped
