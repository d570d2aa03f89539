-- ===== src/Tests/Worker.antt =====
-- The theorems on workers and on environments, at a worker with one orchestrator and one activity.
use durabletask_rs.Prelude.{
  ℕ, zero, suc, ◌≡◌, ◌≢◌, refl, ◌⊎◌, String, none, some, List, [], ◌∷◌, string_eq,
}
use durabletask_rs.Prelude.Int.{pos}
use durabletask_rs.Prelude.Outcome.{Outcome, Panic, returns, panics}
use durabletask_rs.Prelude.Result.{Result, ok, err}
use durabletask_rs.Proto.{
  OrchestratorAction, OrchestrationInstance, OrchestratorRequest, orchestrator_request,
  activity_request, ActivityRequest,
}
use durabletask_rs.Environment.{Environment, get, insert_value, get-insert_value}
use durabletask_rs.Types.Async.{Async, output, ask_activity}
use durabletask_rs.Types.Function.{call_activity, await_value, deserialized}
use durabletask_rs.Types.Activity.{ActivityContext, ActivityFunction, into_activity_fn}
use durabletask_rs.Registry.{Registry, get_activity}
use durabletask_rs.Executor.Execute.{execute}
use durabletask_rs.Worker.{complete_activity_task}
use durabletask_rs.Worker.Activities.{answer-activity_request}
use durabletask_rs.Worker.Laws.{
  answer, response_to, answer-orchestrator_request, activity_roundtrip,
}
use durabletask_rs.Tests.Host.{host}
use durabletask_rs.Tests.Executor.{text_json, test_orchestration}
use durabletask_rs.Tests.Replay.{started_event, replied}

-- The types of the environment: 0 is a text, the others are numbers.
abbrev Shared : ℕ → Type 0
Shared zero = String
Shared (suc t) = ℕ

abbrev environment : Environment Shared
environment = record { entries = (0, (0, "shared")) ∷ [] }

get-insert_value_example :
    (get Shared 1 (insert_value Shared 1 7 environment).1 ≡ some 7)
    × ((u : ℕ)
        → ◌≢◌ {A = ℕ} 1 u
        → get Shared u (insert_value Shared 1 7 environment).1 ≡ get Shared u environment)
    × ((insert_value Shared 1 7 environment).0 ≡ get Shared 1 environment)
get-insert_value_example = get-insert_value Shared 1 7 environment

-- An activity that greets.
abbrev greet : ActivityContext Shared → String → Outcome (Result String String)
greet ctx name = returns (ok "hello")

-- An activity that fails.
abbrev refuse : ActivityContext Shared → String → Outcome (Result String String)
refuse ctx name = returns (err "refused")

abbrev registry : Registry (ActivityFunction Shared)
registry = record {
  orchestrators = ("test", test_orchestration) ∷ [];
  activities =
      ("greet", into_activity_fn Shared text_json text_json greet)
      ∷ ("refuse", into_activity_fn Shared text_json text_json refuse)
      ∷ [];
}

abbrev request : OrchestratorRequest
request = record { instance_id = "test"; past_events = started_event ∷ []; new_events = replied }

answer-orchestrator_request_example :
    ((actions : List OrchestratorAction) × (execute host registry "test"
          (started_event ∷ [])
          replied
        ≡ returns (ok actions))
      × (answer Shared host registry environment (orchestrator_request request)
          ≡ some (response_to request actions)))
    ⊎ ((p : Panic) × (execute host registry "test" (started_event ∷ []) replied ≡ panics p)
        × (answer Shared host registry environment (orchestrator_request request) ≡ none))
answer-orchestrator_request_example =
    answer-orchestrator_request Shared host registry environment request

abbrev inst : OrchestrationInstance
inst = record { instance_id = "test"; execution_id = none }

-- A request to run the activity that fails.
abbrev refused : ActivityRequest
refused = record {
  name = "refuse";
  input = some "you";
  orchestration_instance = some inst;
  task_id = pos 1;
}

answer-activity_request_example :
    answer Shared host registry environment (activity_request refused) ≡ none
unfolding get_activity into_activity_fn
answer-activity_request_example = answer-activity_request Shared host registry environment refused

greet_found :
    get_activity registry "greet" ≡ some (into_activity_fn Shared text_json text_json greet)
unfolding get_activity
greet_found = refl

activity_roundtrip_example :
    ◌≡◌ {A = Async String}
      (call_activity text_json text_json "F" (record { activity_type = "greet" }) "you")
      (ask_activity "greet" (some "you") (await_value text_json))
    × (answer Shared host registry environment (
          activity_request (record {
            name = "greet";
            input = some "you";
            orchestration_instance = some inst;
            task_id = pos 1;
          }))
        ≡ some (
            complete_activity_task (record {
              instance_id = "test";
              task_id = pos 1;
              result = some "hello";
              failure_details = none;
            })))
    × ◌≡◌ {A = Async String} (deserialized (ok "hello")) (output "hello")
activity_roundtrip_example =
    activity_roundtrip Shared host registry environment text_json text_json greet "greet" "F" inst
      (pos 1) "you" "hello" "you" "hello" greet_found refl refl refl refl refl refl
