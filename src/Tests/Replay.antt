-- ===== src/Tests/Replay.antt =====
-- The theorems on histories, at the orchestrator of executor.rs's test.
use durabletask_rs.Prelude.{◌<◌, ◌≡◌, refl, String, none, some, List, [], ◌∷◌, ◌++◌, arith}
use durabletask_rs.Prelude.Int.{pos, i32_max}
use durabletask_rs.Prelude.Outcome.{returns}
use durabletask_rs.Prelude.Result.{ok}
use durabletask_rs.Proto.{HistoryEvent}
use durabletask_rs.Internal.Events.{new_execution_started_event}
use durabletask_rs.Types.Context.{new_context}
use durabletask_rs.Types.Function.{value, call_activity, orchestrator_function}
use durabletask_rs.Registry.{get_orchestrator}
use durabletask_rs.Executor.Context.{new_executor_context}
use durabletask_rs.Executor.Poll.{completion_action}
use durabletask_rs.Executor.Execute.{execute, process_events}
use durabletask_rs.Executor.Replay.{execute-append}
use durabletask_rs.Executor.Invariant.{Holds, IsConsistent}
use durabletask_rs.Executor.Invariant.Run.{process_events-IsConsistent}
use durabletask_rs.Executor.Invariant.Answer.{
  IsAnswer, execute-IsAnswer, new_executor_context-IsConsistent,
}
use durabletask_rs.Sequential.{Request, activity, Script, finish, ask, code_of, history_of}
use durabletask_rs.Sequential.Replay.{execute-history_of}
use durabletask_rs.Tests.Host.{ChanState, host}
use durabletask_rs.Tests.Executor.{test_orchestration, registry, now, history}

abbrev pub call : Request
call = activity "test" (some "input")

abbrev pub after_call : String → Script
after_call r = finish (ok (value "hello"))

pub test_code : test_orchestration (new_context "test" none) ≡ code_of (ask call after_call)
unfolding test_orchestration call_activity orchestrator_function
test_code = refl

test_found : get_orchestrator registry "test" ≡ some test_orchestration
unfolding get_orchestrator
test_found = refl

pub one_reply : 1 < i32_max
unfolding i32_max
one_reply = omega arith

abbrev pub started_event : HistoryEvent
started_event = new_execution_started_event now "uuid" "test" "test" none none none none

abbrev pub replied : List HistoryEvent
replied = history_of host.clock now 1 (ask call after_call) ("hello" ∷ [])

execute-history_of_example :
    execute host registry "test" (started_event ∷ []) replied
    ≡ returns (ok (completion_action (pos 2) (ok (value "hello")) ∷ []))
execute-history_of_example =
    execute-history_of host registry "test" now "uuid" "test" none test_orchestration call
      after_call ("hello" ∷ []) (started_event ∷ []) replied test_found test_code one_reply refl

execute-append_example :
    execute host registry "test" history replied
    ≡ execute host registry "test" [] (history ++ replied)
execute-append_example = execute-append host registry "test" history replied

execute-IsAnswer_example : Holds IsAnswer (execute host registry "test" history replied)
execute-IsAnswer_example = execute-IsAnswer host registry "test" history replied

process_events-IsConsistent_example :
    Holds IsConsistent (process_events host registry "test" history new_executor_context)
process_events-IsConsistent_example =
    process_events-IsConsistent host registry "test" history new_executor_context
      (new_executor_context-IsConsistent ChanState)
