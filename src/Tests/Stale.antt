-- ===== src/Tests/Stale.antt =====
-- Events that come again, and events that the executor has no arm for.
use durabletask_rs.Prelude.{
  ℕ, zero, suc, ◌<◌, ◌≡◌, refl, String, none, some, List, [], ◌∷◌, All, arith,
}
use durabletask_rs.Prelude.Int.{pos, i32_max, int_beq_iff}
use durabletask_rs.Prelude.Outcome.{returns}
use durabletask_rs.Prelude.Result.{ok}
use durabletask_rs.Proto.{HistoryEvent}
use durabletask_rs.Internal.Events.{
  new_orchestrator_started_event, new_execution_started_event, new_task_completed_event,
  new_suspend_orchestration_event,
}
use durabletask_rs.Types.Function.{OrchestratorFunction, value}
use durabletask_rs.Registry.{Registry, get_orchestrator}
use durabletask_rs.Executor.Poll.{completion_action}
use durabletask_rs.Executor.Execute.{execute}
use durabletask_rs.Executor.Clock.{execute-untimed}
use durabletask_rs.Executor.Ignored.{execute-handled}
use durabletask_rs.Sequential.{Request, activity, Script, finish, ask, code_of}
use durabletask_rs.Sequential.Stale.{IsStale}
use durabletask_rs.Sequential.Stale.History.{Extra, stale_history, execute_stale}
use durabletask_rs.Tests.Host.{host}
use durabletask_rs.Tests.Executor.{now}

-- An orchestrator that calls two activities in a row and returns the replies.
abbrev call : Request
call = activity "test" none

abbrev after_call : String → Script
after_call r = ask call (λ s. finish (ok (value s)))

abbrev two_calls : OrchestratorFunction
two_calls octx = code_of (ask call after_call)

abbrev registry : Registry Unit
registry = record { orchestrators = ("two", two_calls) ∷ []; activities = [] }

-- The reply to the request before, again.
abbrev again : ℕ → List HistoryEvent
again zero = []
again (suc n) = new_task_completed_event now (pos n) (some "old") ∷ []

no_loop : (n : ℕ) → ¬ (pos n ≡ pos (suc n))
no_loop n h = absurd (let same = (int_beq_iff (pos n) (pos (suc n))).1 h in ground arith)

again-IsStale : (n : ℕ) → All (IsStale (pos n)) (again n)
unfolding new_task_completed_event
again-IsStale zero = tt
again-IsStale (suc n) = (no_loop n, tt)

abbrev twice : Extra
twice = record {
  before = again;
  behind = again;
  before-IsStale = again-IsStale;
  behind-IsStale = again-IsStale;
}

few : 2 < i32_max
unfolding i32_max
few = omega arith

found : get_orchestrator registry "two" ≡ some two_calls
unfolding get_orchestrator
found = refl

abbrev started_event : HistoryEvent
started_event = new_execution_started_event now "uuid" "two" "id" none none none none

execute_stale_example :
    execute host registry "id"
      (started_event ∷ [])
      (stale_history host registry "id" now twice 1 (ask call after_call) ("a" ∷ "b" ∷ []))
    ≡ returns (ok (completion_action (pos 3) (ok (value "b")) ∷ []))
execute_stale_example =
    execute_stale host registry "id" now twice "uuid" "two" none two_calls call after_call
      ("a" ∷ "b" ∷ []) (started_event ∷ []) _ found refl few refl

-- An orchestration that is suspended is answered as one that is not.
abbrev suspend : HistoryEvent
suspend = new_suspend_orchestration_event now (some "wait")

execute-handled_example :
    execute host registry "id" (started_event ∷ []) (suspend ∷ [])
    ≡ execute host registry "id" (started_event ∷ []) []
unfolding new_suspend_orchestration_event new_execution_started_event
execute-handled_example = execute-handled host registry "id" (started_event ∷ []) (suspend ∷ [])

-- Each turn starts with an event of its own.
abbrev turn : HistoryEvent
turn = new_orchestrator_started_event now

execute-untimed_example :
    execute host registry "id" (turn ∷ started_event ∷ []) (turn ∷ suspend ∷ [])
    ≡ execute host registry "id" (started_event ∷ []) (suspend ∷ [])
unfolding new_suspend_orchestration_event new_execution_started_event new_orchestrator_started_event
execute-untimed_example =
    execute-untimed host registry "id" (turn ∷ started_event ∷ []) (turn ∷ suspend ∷ [])
