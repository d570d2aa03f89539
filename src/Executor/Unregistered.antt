-- ===== src/Executor/Unregistered.antt =====
-- An orchestrator that the registry does not have.
use durabletask_rs.Prelude.{◌≡◌, String, Option, none, [], ◌∷◌}
use durabletask_rs.Prelude.Int.{ℤ, int_eq}
use durabletask_rs.Prelude.HashMap.{lookup, remove}
use durabletask_rs.Prelude.Outcome.{returns, panics, polled_without_orchestration}
use durabletask_rs.Prelude.Result.{ok}
use durabletask_rs.Proto.{Timestamp, ParentInstanceInfo, TraceContext}
use durabletask_rs.Internal.Events.{new_execution_started_event, new_task_completed_event}
use durabletask_rs.Types.Context.{Host}
use durabletask_rs.Registry.{Registry, get_orchestrator}
use durabletask_rs.Executor.Context.{new_executor_context, get_actions, drain}
use durabletask_rs.Executor.Poll.{poll_unwrap}
use durabletask_rs.Executor.Event.{complete_task}
use durabletask_rs.Executor.Execute.{round, process_events, execute}

module _ {Chan Act : Type 0} (host : Host Chan) (registry : Registry Act) (id : String) where
  -- The start of an orchestrator that is not registered is answered with no action and no error, and
  -- an activity's result for it makes the executor panic.
  pub execute_unregistered :
      (now : Timestamp) (uuid name : String) (input : Option String)
      (parent : Option ParentInstanceInfo) (trace : Option TraceContext) (at : Option Timestamp)
      (task_id : ℤ) (result : Option String)
      → get_orchestrator registry name ≡ none
      → (execute host registry id []
            (new_execution_started_event now uuid name id input parent trace at ∷ [])
          ≡ returns (ok []))
        × (execute host registry id [] (
              new_execution_started_event now uuid name id input parent trace at
              ∷ new_task_completed_event now task_id result
              ∷ [])
            ≡ panics polled_without_orchestration)
  unfolding execute process_events round new_executor_context new_execution_started_event
      new_task_completed_event complete_task poll_unwrap drain get_actions lookup remove
  execute_unregistered now uuid name input parent trace at task_id result missing =
      (rw missing, rw missing)
