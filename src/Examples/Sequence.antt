-- ===== src/Examples/Sequence.antt =====
-- examples/src/activity_sequence.rs: a timer, and then an activity.
-- serde is given at the two types that the code uses, `String` and `()`.
use durabletask_rs.Prelude.{
  ℕ, ◌<◌, ◌≡◌, refl, ap, ◌∙◌, fun_ext, String, Option, none, some, [], ◌∷◌, ◌++◌, arith,
}
use durabletask_rs.Prelude.Int.{ℤ, pos, i32_max}
use durabletask_rs.Prelude.Outcome.{Outcome, returns, input_serialization, output_deserialization}
use durabletask_rs.Prelude.Result.{Result, ok, err}
use durabletask_rs.Proto.{Timestamp, OrchestratorRequest, orchestrator_request}
use durabletask_rs.Internal.Events.{new_execution_started_event}
use durabletask_rs.Environment.{Environment}
use durabletask_rs.Types.Context.{Host, OrchestratorContext, new_context}
use durabletask_rs.Types.Async.{Async, output, ask_timer, ask_activity, await_task, ◌>>=◌}
use durabletask_rs.Types.Function.{
  Json, OrchestratorResult, value, deserialized, call_activity, schedule_input,
  orchestrator_function, result_payload,
}
use durabletask_rs.Types.Activity.{ActivityContext, into_activity_fn}
use durabletask_rs.Registry.{get_orchestrator}
use durabletask_rs.Sequential.{
  activity, timer, Script, finish, ask, fault, code_of, due_after, history_of,
}
use durabletask_rs.Examples.Ended.{ended, completion_action-result_payload}
use durabletask_rs.Worker.Laws.{answer, response_to, reply_due, answer-history_of}
use durabletask_rs.Worker.{Worker, new_worker, add_orchestrator, add_activity}

pub no_reply : 0 < i32_max
unfolding i32_max
no_reply = omega arith

pub one_reply : 1 < i32_max
unfolding i32_max
one_reply = omega arith

pub two_replies : 2 < i32_max
unfolding i32_max
two_replies = omega arith

module _ (json_string : Json String) (json_unit : Json (Unit {0})) (type_name : String) where
  -- `sequence_orchestration`
  unfoldable pub sequence_orchestration :
      OrchestratorContext → Async (OrchestratorResult (Unit {0}))
  unfolding call_activity
  sequence_orchestration octx = ask_timer 10000 λ task. await_task task λ fired. do
    _ ←
        call_activity json_string json_string type_name (record { activity_type = "test_activity" })
          "test"
    output (ok (value tt))

  -- The script that it is.
  abbrev read_output : Result String String → Script
  read_output (ok text) = finish (result_payload json_unit (ok (value tt)))
  read_output (err e) = fault output_deserialization

  abbrev call_script : Result String String → Script
  call_script (ok text) =
      ask (activity "test_activity" (some text))
        (λ r. read_output (json_string.from_json_payload r))
  call_script (err e) = fault input_serialization

  abbrev pub after_timer : String → Script
  after_timer fired = call_script (json_string.as_json_payload "test")

  read_code :
      (text : Result String String)
      → ((deserialized text >>= λ s. output (ok (value tt))) >>= λ r.
          output (result_payload json_unit r))
        ≡ code_of (read_output text)
  read_code (ok text) = refl
  read_code (err e) = refl

  call_code :
      (text : Result String String)
      → (schedule_input json_string json_string type_name "test_activity" text
          >>= (λ s. output (ok (value tt)))
          >>= λ r. output (result_payload json_unit r))
        ≡ code_of (call_script text)
  call_code (err e) = refl
  call_code (ok text) =
      ap (λ k. code_like k) (fun_ext λ r. read_code (json_string.from_json_payload r))
    where
      code_like : (String → Async (OrchestratorResult String)) → Async (OrchestratorResult String)
      code_like k = ask_activity "test_activity" (some text) (λ task. await_task task k)

  -- The registered function is the script's code.
  sequence_code :
      (octx : OrchestratorContext)
      → orchestrator_function json_unit sequence_orchestration octx
        ≡ code_of (ask (timer 10000) after_timer)
  unfolding orchestrator_function sequence_orchestration call_activity
  sequence_code octx =
      ap
        (λ (k : String → Async (OrchestratorResult String)).
          ask_timer 10000 (λ task. await_task task k))
        (fun_ext λ fired. call_code (json_string.as_json_payload "test"))

  due_completed :
      (clock : ℤ → ℕ → Timestamp) (text out s : String)
      → json_string.as_json_payload "test" ≡ ok text
      → json_string.from_json_payload out ≡ ok s
      → due_after clock 2 (after_timer "") (out ∷ [])
        ≡ returns (ended (pos 3) (json_unit.as_json_payload tt))
  due_completed clock text out s wrote read =
      ap (λ (o : Result String String). due_after clock 2 (call_script o) (out ∷ [])) wrote
      ∙ ap (λ (o : Result String String). due_after clock 3 (read_output o) []) read
      ∙ ap returns (completion_action-result_payload json_unit (pos 3) tt)

  module _ (Value : ℕ → Type 0) (address : String) where
    -- `test_activity`, whose log of its environment is left out
    unfoldable pub test_activity : ActivityContext Value → String → Outcome (Result String String)
    test_activity ctx input = returns (ok "done")

    -- The worker that `main` starts; the environment that it adds is not read but for the log.
    unfoldable pub sequence_worker : Worker Value
    unfolding new_worker add_orchestrator add_activity test_activity
    sequence_worker =
        add_activity Value "test_activity"
          (into_activity_fn Value json_string json_string test_activity)
          (add_orchestrator Value "sequence_orchestration"
            (orchestrator_function json_unit sequence_orchestration) (new_worker Value address))

    sequence_found :
        get_orchestrator sequence_worker.registry "sequence_orchestration"
        ≡ some (orchestrator_function json_unit sequence_orchestration)
    unfolding get_orchestrator sequence_worker
    sequence_found = refl

    module _ {Chan : Type 0} (host : Host Chan) (environment : Environment Value) where
      -- Once its timer has fired and its activity has replied with text that serde reads, the worker
      -- completes the orchestration with the text of `()`, or as failed where serde has no text for
      -- it; the activity was asked for with a text of "test". The history may be cut anywhere.
      pub sequence_orchestration_completes :
          (now : Timestamp) (uuid text fired out s : String) (input : Option String)
          (request : OrchestratorRequest)
          → json_string.as_json_payload "test" ≡ ok text
          → json_string.from_json_payload out ≡ ok s
          → request.past_events ++ request.new_events
            ≡ new_execution_started_event now uuid "sequence_orchestration" request.instance_id
                input none none none
              ∷ history_of host.clock now 1 (ask (timer 10000) after_timer) (fired ∷ out ∷ [])
          → answer Value host sequence_worker.registry environment (orchestrator_request request)
            ≡ some (response_to request (ended (pos 3) (json_unit.as_json_payload tt) ∷ []))
      sequence_orchestration_completes now uuid text fired out s input request wrote read cut =
          answer-history_of Value host sequence_worker.registry environment now uuid
            "sequence_orchestration" input (orchestrator_function json_unit sequence_orchestration)
            (timer 10000) after_timer (fired ∷ out ∷ []) request sequence_found
            (sequence_code (new_context request.instance_id input)) two_replies cut
          ∙ ap (reply_due request) (due_completed host.clock text out s wrote read)
