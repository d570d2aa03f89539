-- ===== src/Examples/SubSequence.antt =====
-- examples/src/sub_orchestrator.rs: the sub-orchestrator, which takes an input and hands on the output
-- of an activity. `main` registers it with `into_orchestrator`.
use durabletask_rs.Prelude.{
  ℕ, ◌≡◌, refl, ap, ◌∙◌, fun_ext, String, Option, none, some, List, [], ◌∷◌,
}
use durabletask_rs.Prelude.Int.{ℤ, pos}
use durabletask_rs.Prelude.Outcome.{Outcome, returns, panics, output_deserialization}
use durabletask_rs.Prelude.Result.{Result, ok, err}
use durabletask_rs.Proto.{Timestamp, OrchestratorAction}
use durabletask_rs.Internal.Events.{new_execution_started_event}
use durabletask_rs.Types.Context.{Host, OrchestratorContext, new_context}
use durabletask_rs.Types.Async.{Async, output, ask_activity, await_task, ◌>>=◌}
use durabletask_rs.Types.Function.{
  Json, OrchestratorResult, OrchestratorFunction, value, deserialized, call_activity,
  schedule_input, orchestrator_function, result_payload, into_orchestrator, into_result, with_input,
  some_input, context_input,
}
use durabletask_rs.Registry.{Registry, get_orchestrator}
use durabletask_rs.Executor.Poll.{completion_action}
use durabletask_rs.Executor.Execute.{execute}
use durabletask_rs.Sequential.{
  request_action, activity, Script, finish, ask, fault, code_of, due_after, history_of,
}
use durabletask_rs.Sequential.Replay.{answer_due, execute-history_of}
use durabletask_rs.Examples.Sequence.{no_reply, one_reply}

-- `input.unwrap_or("activity_input".to_string())`
abbrev pub unwrap_or : Option String → String
unwrap_or none = "activity_input"
unwrap_or (some text) = text

module _ (json : Json String) (type_name : String) where
  -- `sub_sequence_orchestration`
  unfoldable pub sub_sequence_orchestration :
      OrchestratorContext → Option String → Async (OrchestratorResult String)
  unfolding call_activity
  sub_sequence_orchestration octx input = do
    text ←
        call_activity json json type_name (record { activity_type = "test_activity" })
          (unwrap_or input)
    output (ok (value text))

  -- What `main` registers: the value is an `OrchestratorResultValue` already, and `into` keeps it.
  unfoldable pub sub_sequence_function : OrchestratorFunction
  unfolding orchestrator_function into_orchestrator sub_sequence_orchestration
  sub_sequence_function =
      orchestrator_function json (into_orchestrator json (λ r. r) sub_sequence_orchestration)

  -- What `into_orchestrator` and `orchestrator_function` do with the code's result.
  abbrev handed_on : Async (OrchestratorResult String) → Async (OrchestratorResult String)
  handed_on code =
      code >>= (λ r. output (into_result json (λ v. v) r)) >>= λ r. output (result_payload json r)

  abbrev read_output : Result String String → Script
  read_output (ok text) = finish (result_payload json (ok (value text)))
  read_output (err e) = fault output_deserialization

  abbrev pub after_activity : String → Script
  after_activity r = read_output (json.from_json_payload r)

  read_code :
      (text : Result String String)
      → handed_on (deserialized text >>= λ t. output (ok (value t))) ≡ code_of (read_output text)
  read_code (ok text) = refl
  read_code (err e) = refl

  -- With an input that serde reads, the registered function is a script's code.
  sub_sequence_code :
      (id payload a text : String)
      → json.from_json_payload payload ≡ ok a
      → json.as_json_payload a ≡ ok text
      → sub_sequence_function (new_context id (some payload))
        ≡ code_of (ask (activity "test_activity" (some text)) after_activity)
  unfolding sub_sequence_function orchestrator_function into_orchestrator context_input
      sub_sequence_orchestration call_activity new_context
  sub_sequence_code id payload a text read wrote =
      ap
        (λ (o : Result String String).
          with_input json (λ v. v) sub_sequence_orchestration (new_context id (some payload))
            (some_input json o)
          >>= λ r. output (result_payload json r))
        read
      ∙ ap
          (λ (o : Result String String).
            handed_on
              (schedule_input json json type_name "test_activity" o >>= λ t. output (ok (value t))))
          wrote
      ∙ ap
          (λ (k : String → Async (OrchestratorResult String)).
            ask_activity "test_activity" (some text) (λ task. await_task task k))
          (fun_ext λ r. read_code (json.from_json_payload r))

  -- What the executor answers once the activity has replied.
  abbrev pub completion_due :
      Result String String → Outcome (Result String (List OrchestratorAction))
  completion_due (ok s) =
      returns (ok (completion_action (pos 2) (result_payload json (ok (value s))) ∷ []))
  completion_due (err e) = panics output_deserialization

  due_completed :
      (clock : ℤ → ℕ → Timestamp) (written : Result String String)
      → answer_due (due_after clock 2 (read_output written) []) ≡ completion_due written
  due_completed clock (ok s) = refl
  due_completed clock (err e) = refl

  module _ {Chan Act : Type 0} (host : Host Chan) (registry : Registry Act) (id : String)
      (now : Timestamp) (uuid name : String) where
    -- Started with an input that serde reads and writes again, the example asks for its activity with
    -- what serde wrote; once a reply came that serde reads, it is completed with serde's text of that
    -- output, or as failed where serde has none; where serde does not read the reply it panics.
    pub sub_sequence_orchestration_completes :
        (payload a text : String)
        → get_orchestrator registry name ≡ some sub_sequence_function
        → json.from_json_payload payload ≡ ok a
        → json.as_json_payload a ≡ ok text
        → (execute host registry id []
              (new_execution_started_event now uuid name id (some payload) none none none ∷ [])
            ≡ returns (
                ok (request_action host.clock (activity "test_activity" (some text)) (pos 1) ∷ [])))
          × ((out : String)
              → execute host registry id [] (
                  new_execution_started_event now uuid name id (some payload) none none none
                  ∷ history_of host.clock now 1
                      (ask (activity "test_activity" (some text)) after_activity)
                      (out ∷ []))
                ≡ completion_due (json.from_json_payload out))
    unfolding history_of
    sub_sequence_orchestration_completes payload a text found read wrote = (
      execute-history_of host registry id now uuid name (some payload) sub_sequence_function
          (activity "test_activity" (some text)) after_activity [] [] _ found
          (sub_sequence_code id payload a text read wrote) no_reply refl,
      λ out.
          execute-history_of host registry id now uuid name (some payload) sub_sequence_function
            (activity "test_activity" (some text)) after_activity (out ∷ []) [] _ found
            (sub_sequence_code id payload a text read wrote) one_reply refl
          ∙ due_completed host.clock (json.from_json_payload out),
    )
