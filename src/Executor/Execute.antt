-- ===== src/Executor/Execute.antt =====
-- `process_events`, and the future of `OrchestrationExecutor::execute`, of executor.rs.
use durabletask_rs.Prelude.{String, true, false, List, [], ◌∷◌}
use durabletask_rs.Prelude.Outcome.{Outcome, returns, ◌>>=◌}
use durabletask_rs.Prelude.Result.{Result, ok}
use durabletask_rs.Proto.{HistoryEvent, OrchestratorAction}
use durabletask_rs.Types.Context.{Host}
use durabletask_rs.Registry.{Registry}
use durabletask_rs.Executor.Context.{
  OrchestrationExecutorContext, new_executor_context, get_actions, drain,
}
use durabletask_rs.Executor.Event.{process_event}

module _ {Chan : Type 0} where
  abbrev pub set_replaying : OrchestrationExecutorContext Chan → OrchestrationExecutorContext Chan
  set_replaying ctx = record ctx { is_replaying = true }

  abbrev pub clear_replaying : OrchestrationExecutorContext Chan → OrchestrationExecutorContext Chan
  clear_replaying ctx = record ctx { is_replaying = false }

module _ {Chan Act : Type 0} (host : Host Chan) (registry : Registry Act)
    (instance_id : String) where
  -- One round of the loop: an event, and then what the orchestrator sent.
  unfoldable pub round :
      HistoryEvent → OrchestrationExecutorContext Chan → Outcome (OrchestrationExecutorContext Chan)
  unfolding process_event drain
  round event ctx = do
    ctx' ← process_event host registry instance_id event ctx
    returns (drain host ctx')

  unfoldable pub process_events :
      List HistoryEvent
      → OrchestrationExecutorContext Chan
      → Outcome (OrchestrationExecutorContext Chan)
  unfolding round
  process_events [] ctx = returns ctx
  process_events (event ∷ events) ctx = round event ctx >>= process_events events

  -- `Future::poll` of `OrchestrationExecutorFuture`, which is ready at once.
  unfoldable pub execute :
      List HistoryEvent → List HistoryEvent → Outcome (Result String (List OrchestratorAction))
  unfolding new_executor_context process_events get_actions
  execute old_events new_events = do
    ctx ← process_events old_events (set_replaying new_executor_context)
    ctx' ← process_events new_events (clear_replaying ctx)
    returns (ok (get_actions ctx'))
