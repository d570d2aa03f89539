-- ===== src/Tests/Parallel.antt =====
-- The theorems on requests that run at the same time, and on the example parallel.rs.
use Prim.Native.String.{◌++◌}
use durabletask_rs.Prelude.{
  ℕ, zero, suc, ◌<◌, ◌≡◌, refl, String, false, Option, none, some, List, [], ◌∷◌, map, arith,
}
use durabletask_rs.Prelude.Int.{pos, i32_max}
use durabletask_rs.Prelude.Outcome.{Outcome, returns}
use durabletask_rs.Prelude.Result.{Result, ok}
use durabletask_rs.Proto.{HistoryEvent, OrchestratorAction, OrchestrationInstance, activity_request}
use durabletask_rs.Internal.Events.{new_execution_started_event}
use durabletask_rs.Types.Async.{output, join, ask_activity, ask_timer, await_task}
use durabletask_rs.Types.Activity.{ActivityFunction}
use durabletask_rs.Types.Function.{OrchestratorFunction, value}
use durabletask_rs.Registry.{Registry, get_orchestrator}
use durabletask_rs.Executor.Poll.{completion_action}
use durabletask_rs.Executor.Execute.{execute}
use durabletask_rs.Sequential.{
  Request, activity, timer, Script, finish, code_of, asked_event, replied_event, request_action,
}
use durabletask_rs.Sequential.FanOut.{start_all, await_all, indices, IsOrder, IsPartial}
use durabletask_rs.Sequential.FanOut.Order.{execute_any_order}
use durabletask_rs.Sequential.FanOut.Partial.{execute_partly_replied}
use durabletask_rs.Sequential.Join.Order.{execute_joined}
use durabletask_rs.Examples.Parallel.{parallel_worker, parallel_orchestration_completes}
use durabletask_rs.Worker.{Reply, complete_activity_task}
use durabletask_rs.Worker.Laws.{answer}
use durabletask_rs.Examples.Ended.{ended}
use durabletask_rs.Tests.Host.{host}
use durabletask_rs.Tests.Executor.{text_json, now}
use durabletask_rs.Tests.Examples.{unit_json, Numbers, environment}

abbrev all_of : List String → String
all_of [] = ""
all_of (r ∷ rs) = r ++ all_of rs

-- Three activities whose results are joined, and two requests that `join!` waits for.
abbrev requests : ℕ → Request
requests i = activity "work" none

abbrev results : ℕ → String
results zero = "x"
results (suc zero) = "y"
results _ = "z"

abbrev joins_all : List String → Script
joins_all rs = finish (ok (value (all_of rs)))

abbrev fans_out : OrchestratorFunction
fans_out octx =
    start_all (map requests (indices 3 0)) (λ tasks. await_all tasks (λ rs. code_of (joins_all rs)))

abbrev joins : OrchestratorFunction
joins octx =
    join
      (ask_activity "a" none (λ t. await_task t output), ask_timer 1000 (λ t. await_task t output))
      (λ r₁ r₂. output (ok (value (r₁ ++ r₂))))

abbrev registry : Registry Unit
registry = record {
  orchestrators = ("joins", joins) ∷ ("fans_out", fans_out) ∷ [];
  activities = [];
}

joins_found : get_orchestrator registry "joins" ≡ some joins
unfolding get_orchestrator
joins_found = refl

fans_out_found : get_orchestrator registry "fans_out" ≡ some fans_out
unfolding get_orchestrator
fans_out_found = refl

three_below : 3 < i32_max
unfolding i32_max
three_below = omega arith

each_once : IsOrder 3 (λ i. false) (2 ∷ 0 ∷ 1 ∷ [])
each_once = (omega arith, refl, (omega arith, refl, (omega arith, refl, λ i h. ground arith)))

abbrev asked : List HistoryEvent
asked =
    new_execution_started_event now "uuid" "fans_out" "id" none none none none
    ∷ map (λ (i : ℕ). asked_event host.clock now (requests i) (pos (suc i))) (indices 3 0)

abbrev replied : List HistoryEvent
replied =
    map (λ (i : ℕ). replied_event host.clock now (requests i) (pos (suc i)) (results i))
      (2 ∷ 0 ∷ 1 ∷ [])

execute_any_order_example :
    execute host registry "id" asked replied
    ≡ returns (ok (completion_action (pos 4) (ok (value "xyz")) ∷ []))
execute_any_order_example =
    execute_any_order host registry "id" now "uuid" "fans_out" none fans_out requests results 3
      joins_all (2 ∷ 0 ∷ 1 ∷ []) asked replied fans_out_found refl (omega arith) three_below
      each_once refl

one_left : IsPartial 3 (λ i. false) (2 ∷ 0 ∷ [])
one_left = (omega arith, refl, (omega arith, refl, (1, omega arith, refl)))

abbrev two_replied : List HistoryEvent
two_replied =
    map (λ (i : ℕ). replied_event host.clock now (requests i) (pos (suc i)) (results i))
      (2 ∷ 0 ∷ [])

execute_partly_replied_example : execute host registry "id" asked two_replied ≡ returns (ok [])
execute_partly_replied_example =
    execute_partly_replied host registry "id" now "uuid" "fans_out" none fans_out requests results 3
      joins_all (2 ∷ 0 ∷ []) asked two_replied fans_out_found refl (omega arith) three_below
      one_left refl

abbrev both_asked : List HistoryEvent → List HistoryEvent
both_asked replies =
    new_execution_started_event now "uuid" "joins" "id" none none none none
    ∷ asked_event host.clock now (activity "a" none) (pos 1)
    ∷ asked_event host.clock now (timer 1000) (pos 2)
    ∷ replies

execute_joined_example :
    (execute host registry "id" []
        (new_execution_started_event now "uuid" "joins" "id" none none none none ∷ [])
      ≡ returns (
          ok (
            request_action host.clock (activity "a" none) (pos 1)
            ∷ request_action host.clock (timer 1000) (pos 2)
            ∷ [])))
    × (execute host registry "id" [] (
          both_asked (
            replied_event host.clock now (activity "a" none) (pos 1) "x"
            ∷ replied_event host.clock now (timer 1000) (pos 2) "y"
            ∷ []))
        ≡ returns (ok (completion_action (pos 3) (ok (value "x")) ∷ [])))
    × (execute host registry "id" [] (
          both_asked (
            replied_event host.clock now (timer 1000) (pos 2) "y"
            ∷ replied_event host.clock now (activity "a" none) (pos 1) "x"
            ∷ []))
        ≡ returns (ok (completion_action (pos 3) (ok (value "x")) ∷ [])))
execute_joined_example =
    execute_joined host registry "id" now "uuid" "joins" none joins (activity "a" none) (timer 1000)
      output output (λ r₁ r₂. output (ok (value (r₁ ++ r₂)))) joins_found refl "x" "y" "x" ""
      (finish (ok (value "x"))) refl refl refl

abbrev inst : OrchestrationInstance
inst = record { instance_id = "test_id6"; execution_id = none }

abbrev example : Registry (ActivityFunction Numbers)
example = (parallel_worker text_json unit_json "F" Numbers "localhost").registry

abbrev run_example : List HistoryEvent → Outcome (Result String (List OrchestratorAction))
run_example events = execute host example "test_id6" [] (
    new_execution_started_event now "uuid" "parallel_orchestration" "test_id6" none none none none
    ∷ events)

abbrev call : ℕ → String → Request
call i text = activity "test_activity" (some text)

abbrev answer_to : ℕ → String → Option Reply
answer_to i text = answer Numbers host example environment (
    activity_request (record {
      name = "test_activity";
      input = some text;
      orchestration_instance = some inst;
      task_id = pos i;
    }))

abbrev response_with : ℕ → String → Option Reply
response_with i text = some (
    complete_activity_task (record {
      instance_id = "test_id6";
      task_id = pos i;
      result = some text;
      failure_details = none;
    }))

abbrev replied_with : ℕ → String → HistoryEvent
replied_with i text = replied_event host.clock now (call i text) (pos i) text

abbrev example_history : List HistoryEvent → List HistoryEvent
example_history replies =
    asked_event host.clock now (call 1 "test 1") (pos 1)
    ∷ asked_event host.clock now (call 2 "test 2") (pos 2)
    ∷ replies

abbrev completed_example : Outcome (Result String (List OrchestratorAction))
completed_example = returns (ok (ended (pos 3) (unit_json.as_json_payload tt) ∷ []))

parallel_orchestration_completes_example :
    (run_example []
      ≡ returns (
          ok (
            request_action host.clock (call 1 "test 1") (pos 1)
            ∷ request_action host.clock (call 2 "test 2") (pos 2)
            ∷ [])))
    × (answer_to 1 "test 1" ≡ response_with 1 "test 1")
    × (answer_to 2 "test 2" ≡ response_with 2 "test 2")
    × (run_example (example_history (replied_with 1 "test 1" ∷ replied_with 2 "test 2" ∷ []))
        ≡ completed_example)
    × (run_example (example_history (replied_with 2 "test 2" ∷ replied_with 1 "test 1" ∷ []))
        ≡ completed_example)
parallel_orchestration_completes_example =
    parallel_orchestration_completes text_json unit_json "F" Numbers "localhost" host environment
      "test_id6" now "uuid" none "test 1" "test 2" inst refl refl refl refl
