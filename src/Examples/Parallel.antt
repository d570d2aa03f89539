-- ===== src/Examples/Parallel.antt =====
-- examples/src/parallel.rs: two activities that `join!` waits for.
-- serde is given at the two types that the code uses, `String` and `()`.
use durabletask_rs.Prelude.{ℕ, ◌≡◌, ◌∙◌, refl, ap, ap₂, String, Option, none, some, List, [], ◌∷◌}
use durabletask_rs.Prelude.Int.{ℤ, pos}
use durabletask_rs.Prelude.Outcome.{Outcome, returns}
use durabletask_rs.Prelude.Result.{Result, ok}
use durabletask_rs.Proto.{
  Timestamp, OrchestratorAction, HistoryEvent, OrchestrationInstance, activity_request,
}
use durabletask_rs.Internal.Events.{new_execution_started_event}
use durabletask_rs.Types.Context.{Host, OrchestratorContext, new_context}
use durabletask_rs.Types.Async.{Async, Arm, join, output, await_task}
use durabletask_rs.Types.Activity.{ActivityContext, into_activity_fn}
use durabletask_rs.Types.Function.{
  Json, OrchestratorResult, OrchestratorFunction, value, deserialized, call_activity,
  schedule_input, orchestrator_function, result_payload,
}
use durabletask_rs.Registry.{get_orchestrator, get_activity}
use durabletask_rs.Executor.Poll.{completion_action}
use durabletask_rs.Executor.Execute.{execute}
use durabletask_rs.Sequential.{
  Request, activity, finish, request_action, start_request, asked_event, replied_event,
}
use durabletask_rs.Examples.Ended.{ended, completion_action-result_payload}
use durabletask_rs.Sequential.Join.Order.{execute_joined}
use durabletask_rs.Environment.{Environment}
use durabletask_rs.Worker.Laws.{answer, activity_roundtrip}
use durabletask_rs.Worker.{
  complete_activity_task, Worker, new_worker, add_orchestrator, add_activity,
}

module _ (json_string : Json String) (json_unit : Json (Unit {0})) (type_name : String) where
  -- `parallel_orchestration`
  unfoldable pub parallel_orchestration :
      OrchestratorContext → Async (OrchestratorResult (Unit {0}))
  unfolding call_activity
  parallel_orchestration octx =
      let activity1 =
        call_activity json_string json_string type_name (record { activity_type = "test_activity" })
          "test 1" in
      let activity2 =
        call_activity json_string json_string type_name (record { activity_type = "test_activity" })
          "test 2" in
      join (activity1, activity2) (λ output1 output2. output (ok (value tt)))

  abbrev parallel_function : OrchestratorFunction
  parallel_function = orchestrator_function json_unit parallel_orchestration

  abbrev call : Option String → Request
  call text = activity "test_activity" text

  -- How the code goes on with a result, and with both.
  abbrev read : String → Arm
  read text = deserialized (json_string.from_json_payload text)

  abbrev last : Async (OrchestratorResult String)
  last = output (result_payload json_unit (ok (value tt)))

  parallel_code :
      (octx : OrchestratorContext) (text₁ text₂ : String)
      → json_string.as_json_payload "test 1" ≡ ok text₁
      → json_string.as_json_payload "test 2" ≡ ok text₂
      → parallel_function octx
        ≡ join
            (
              start_request (call (some text₁)) (λ t. await_task t read),
              start_request (call (some text₂)) (λ t. await_task t read),
            )
            (λ output1 output2. last)
  unfolding orchestrator_function parallel_orchestration call_activity
  parallel_code octx text₁ text₂ wrote₁ wrote₂ =
      ap₂
        (λ (written₁ written₂ : Result String String).
          join
            (
              schedule_input json_string json_string type_name "test_activity" written₁,
              schedule_input json_string json_string type_name "test_activity" written₂,
            )
            (λ (output1 output2 : String). last))
        wrote₁ wrote₂

  module _ (Value : ℕ → Type 0) (address : String) where
    -- `test_activity`
    unfoldable pub test_activity : ActivityContext Value → String → Outcome (Result String String)
    test_activity ctx input = returns (ok input)

    -- The worker that `main` starts.
    unfoldable pub parallel_worker : Worker Value
    unfolding new_worker add_orchestrator add_activity test_activity
    parallel_worker =
        add_activity Value "test_activity"
          (into_activity_fn Value json_string json_string test_activity)
          (add_orchestrator Value "parallel_orchestration" parallel_function
            (new_worker Value address))

    parallel_found :
        get_orchestrator parallel_worker.registry "parallel_orchestration" ≡ some parallel_function
    unfolding get_orchestrator parallel_worker
    parallel_found = refl

    activity_found :
        get_activity parallel_worker.registry "test_activity"
        ≡ some (into_activity_fn Value json_string json_string test_activity)
    unfolding get_activity parallel_worker
    activity_found = refl

    module _ {Chan : Type 0} (host : Host Chan) (environment : Environment Value) (id : String)
        (now : Timestamp) (uuid : String) (input : Option String) where
      abbrev start : HistoryEvent
      start = new_execution_started_event now uuid "parallel_orchestration" id input none none none

      abbrev history_with : String → String → List HistoryEvent → List HistoryEvent
      history_with text₁ text₂ replies =
          start
          ∷ asked_event host.clock now (call (some text₁)) (pos 1)
          ∷ asked_event host.clock now (call (some text₂)) (pos 2)
          ∷ replies

      -- The worker's response to an activity that has this input is the same text.
      abbrev IsEchoed : OrchestrationInstance → ℤ → String → Type 0
      IsEchoed inst task_id text =
          answer Value host parallel_worker.registry environment (
            activity_request (record {
              name = "test_activity";
              input = some text;
              orchestration_instance = some inst;
              task_id = task_id;
            }))
          ≡ some (
              complete_activity_task (record {
                instance_id = inst.instance_id;
                task_id = task_id;
                result = some text;
                failure_details = none;
              }))

      -- The example asks for its two activities at once; the worker answers each with its own input; and
      -- with these two results, in either order, the orchestration is completed with serde's text of
      -- (), or as failed where serde has none. serde reads back what it wrote of the two inputs.
      pub parallel_orchestration_completes :
          (text₁ text₂ : String) (inst : OrchestrationInstance)
          → json_string.as_json_payload "test 1" ≡ ok text₁
          → json_string.as_json_payload "test 2" ≡ ok text₂
          → json_string.from_json_payload text₁ ≡ ok "test 1"
          → json_string.from_json_payload text₂ ≡ ok "test 2"
          → (execute host parallel_worker.registry id [] (start ∷ [])
              ≡ returns (
                  ok (
                    request_action host.clock (call (some text₁)) (pos 1)
                    ∷ request_action host.clock (call (some text₂)) (pos 2)
                    ∷ [])))
            × IsEchoed inst (pos 1) text₁
            × IsEchoed inst (pos 2) text₂
            × (execute host parallel_worker.registry id [] (
                  history_with text₁ text₂ (
                    replied_event host.clock now (call (some text₁)) (pos 1) text₁
                    ∷ replied_event host.clock now (call (some text₂)) (pos 2) text₂
                    ∷ []))
                ≡ returns (ok (ended (pos 3) (json_unit.as_json_payload tt) ∷ [])))
            × (execute host parallel_worker.registry id [] (
                  history_with text₁ text₂ (
                    replied_event host.clock now (call (some text₂)) (pos 2) text₂
                    ∷ replied_event host.clock now (call (some text₁)) (pos 1) text₁
                    ∷ []))
                ≡ returns (ok (ended (pos 3) (json_unit.as_json_payload tt) ∷ [])))
      unfolding test_activity
      parallel_orchestration_completes text₁ text₂ inst wrote₁ wrote₂ read₁ read₂ =
          let (started, left, right) =
            execute_joined host parallel_worker.registry id now uuid "parallel_orchestration" input
              parallel_function (call (some text₁)) (call (some text₂)) read read
              (λ output1 output2. last) parallel_found
              (parallel_code (new_context id input) text₁ text₂ wrote₁ wrote₂) text₁ text₂ "test 1"
              "test 2" (finish (result_payload json_unit (ok (value tt))))
              (ap (λ (r : Result String String). deserialized r) read₁)
              (ap (λ (r : Result String String). deserialized r) read₂) refl in
          (
            started,
            echoed inst (pos 1) "test 1" text₁ wrote₁ read₁,
            echoed inst (pos 2) "test 2" text₂ wrote₂ read₂,
            left ∙ written,
            right ∙ written,
          )
        where
          written :
              ◌≡◌ {A = Outcome (Result String (List OrchestratorAction))}
                (returns
                  (ok (completion_action (pos 3) (result_payload json_unit (ok (value tt))) ∷ [])))
                (returns (ok (ended (pos 3) (json_unit.as_json_payload tt) ∷ [])))
          written =
              ap (λ (a : OrchestratorAction). returns (ok (a ∷ [])))
                (completion_action-result_payload json_unit (pos 3) tt)

          echoed :
              (inst : OrchestrationInstance) (task_id : ℤ) (a text : String)
              → json_string.as_json_payload a ≡ ok text
              → json_string.from_json_payload text ≡ ok a
              → IsEchoed inst task_id text
          echoed inst task_id a text wrote reads =
              (activity_roundtrip Value host parallel_worker.registry environment json_string
                json_string (test_activity) "test_activity" type_name inst task_id a a text text
                activity_found refl wrote reads refl wrote reads).1
