-- ===== src/Tests/Edge.antt =====
-- The theorems on where an orchestrator is not completed, at orchestrators that come to it.
use durabletask_rs.Prelude.{◌<◌, arith, ◌≡◌, refl, String, none, some, List, [], ◌∷◌}
use durabletask_rs.Prelude.Int.{pos, i32_max}
use durabletask_rs.Prelude.Outcome.{
  returns, panics, resumed_after_completion, polled_without_orchestration,
}
use durabletask_rs.Prelude.Result.{ok}
use durabletask_rs.Proto.{HistoryEvent}
use durabletask_rs.Internal.Events.{
  new_orchestrator_started_event, new_event_raised_event, new_execution_started_event,
  new_task_completed_event,
}
use durabletask_rs.Types.Async.{output, await_task}
use durabletask_rs.Types.Function.{OrchestratorResult, OrchestratorFunction, value}
use durabletask_rs.Registry.{Registry, get_orchestrator}
use durabletask_rs.Executor.Unregistered.{execute_unregistered}
use durabletask_rs.Executor.Execute.{execute}
use durabletask_rs.Sequential.{
  Script, ask, finish, code_of, Request, activity, start_request, asked_event, replied_event,
  request_action,
}
use durabletask_rs.Sequential.Edge.{
  execute_returned_at_once, execute_completion_lost, execute_polled_again,
}
use durabletask_rs.Sequential.Waiting.{history_then}
use durabletask_rs.Sequential.Lost.{execute_completed_empty}
use durabletask_rs.Tests.Host.{host}
use durabletask_rs.Tests.Executor.{now}

abbrev done : OrchestratorResult String
done = ok (value "done")

abbrev call : Request
call = activity "call" none

abbrev last : Request
last = activity "last" none

-- It starts an activity and returns.
abbrev at_once : OrchestratorFunction
at_once octx = start_request call (λ task. output done)

-- It awaits one activity, and returns.
abbrev waits : OrchestratorFunction
waits octx = start_request call (λ task. await_task task (λ r. output done))

-- It awaits one activity, starts another one, and returns.
abbrev leaves : OrchestratorFunction
leaves octx =
    start_request call (λ task. await_task task (λ r. start_request last (λ other. output done)))

-- It awaits two activities one behind the other, and returns.
abbrev after_call : String → Script
after_call r = ask last (λ result. finish done)

abbrev twice : OrchestratorFunction
twice octx = code_of (ask call after_call)

abbrev registry : Registry Unit
registry = record {
  orchestrators =
      ("at_once", at_once) ∷ ("waits", waits) ∷ ("leaves", leaves) ∷ ("twice", twice) ∷ [];
  activities = [];
}

found_at_once : get_orchestrator registry "at_once" ≡ some at_once
unfolding get_orchestrator
found_at_once = refl

found_waits : get_orchestrator registry "waits" ≡ some waits
unfolding get_orchestrator
found_waits = refl

found_leaves : get_orchestrator registry "leaves" ≡ some leaves
unfolding get_orchestrator
found_leaves = refl

missing_name : get_orchestrator registry "missing" ≡ none
unfolding get_orchestrator
missing_name = refl

abbrev start_of : String → HistoryEvent
start_of name = new_execution_started_event now "uuid" name "id" none none none none

-- The start after a turn's start and an event that is raised early, and an acknowledgement behind it.
abbrev early : List HistoryEvent
early = new_orchestrator_started_event now ∷ new_event_raised_event now "other" none ∷ []

abbrev acknowledgement : List HistoryEvent
acknowledgement = asked_event host.clock now call (pos 1) ∷ []

execute_returned_at_once_example :
    execute host registry "id" early (start_of "at_once" ∷ acknowledgement) ≡ returns (ok [])
unfolding new_orchestrator_started_event new_event_raised_event asked_event
execute_returned_at_once_example =
    execute_returned_at_once host registry "id" now "uuid" "at_once" none at_once found_at_once done
      (call ∷ []) early acknowledgement early (start_of "at_once" ∷ acknowledgement) refl
      (tt, (tt, tt)) (tt, tt) refl

execute_completion_lost_example :
    execute host registry "id" [] (
      start_of "leaves"
      ∷ asked_event host.clock now call (pos 1)
      ∷ replied_event host.clock now call (pos 1) "r"
      ∷ [])
    ≡ returns (ok (request_action host.clock last (pos 2) ∷ []))
execute_completion_lost_example =
    execute_completion_lost host registry "id" now "uuid" "leaves" none leaves found_leaves call
      (λ r. start_request last (λ other. output done)) refl "r" last done refl

execute_polled_again_example :
    execute host registry "id" [] (
      start_of "waits"
      ∷ asked_event host.clock now call (pos 1)
      ∷ replied_event host.clock now call (pos 1) "r"
      ∷ new_task_completed_event now (pos 1) none
      ∷ [])
    ≡ panics resumed_after_completion
execute_polled_again_example =
    execute_polled_again host registry "id" now "uuid" "waits" none waits found_waits call
      (λ r. output done) refl "r" done (pos 1) none refl

abbrev called_waits : HistoryEvent → List HistoryEvent
called_waits event = start_of "waits" ∷ asked_event host.clock now call (pos 1) ∷ event ∷ []

-- The second one completes without a result, and an event is raised after that.
abbrev lost : List HistoryEvent
lost =
    asked_event host.clock now last (pos 2)
    ∷ new_task_completed_event now (pos 2) none
    ∷ new_event_raised_event now "other" none
    ∷ []

found_twice : get_orchestrator registry "twice" ≡ some twice
unfolding get_orchestrator
found_twice = refl

one_reply : 1 < i32_max
unfolding i32_max
one_reply = omega arith

execute_completed_empty_example :
    execute host registry "id" []
      (history_then host "id" now none "uuid" "twice" (ask call after_call) ("r" ∷ []) lost)
    ≡ returns (ok [])
unfolding new_event_raised_event
execute_completed_empty_example =
    execute_completed_empty host registry "id" now none "uuid" "twice" twice call after_call
      ("r" ∷ []) "last" none (λ result. finish done) (new_event_raised_event now "other" none ∷ [])
      [] _ found_twice refl refl one_reply (tt, tt) refl

execute_unregistered_example :
    (execute host registry "id" []
        (new_execution_started_event now "uuid" "missing" "id" none none none none ∷ [])
      ≡ returns (ok []))
    × (execute host registry "id" [] (
          new_execution_started_event now "uuid" "missing" "id" none none none none
          ∷ new_task_completed_event now (pos 1) none
          ∷ [])
        ≡ panics polled_without_orchestration)
execute_unregistered_example =
    execute_unregistered host registry "id" now "uuid" "missing" none none none none (pos 1) none
      missing_name
