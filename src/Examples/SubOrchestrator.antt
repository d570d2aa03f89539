-- ===== src/Examples/SubOrchestrator.antt =====
-- examples/src/sub_orchestrator.rs: the orchestrator that awaits an activity and then the
-- sub-orchestrator of Examples/SubSequence. serde is given at the three types that the code uses.
use Prim.Native.String.{◌++◌}
use durabletask_rs.Prelude.{
  ℕ, ◌<◌, ◌≡◌, refl, ap, ◌∙◌, fun_ext, String, Option, none, some, List, [], ◌∷◌, length,
}
use durabletask_rs.Prelude.Int.{ℤ, pos, i32_max}
use durabletask_rs.Prelude.Outcome.{returns, output_deserialization}
use durabletask_rs.Prelude.Result.{Result, ok, err}
use durabletask_rs.Proto.{Timestamp, OrchestratorAction}
use durabletask_rs.Internal.Events.{new_execution_started_event}
use durabletask_rs.Types.Context.{Host, OrchestratorContext, new_context}
use durabletask_rs.Types.Async.{
  Async, output, ask_activity, ask_sub_orchestrator, await_task, ◌>>=◌,
}
use durabletask_rs.Types.Function.{
  Json, OrchestratorResult, OrchestratorFunction, value, deserialized, call_activity,
  call_sub_orchestrator, schedule_input, sub_orchestrator_input, orchestrator_function,
  result_payload,
}
use durabletask_rs.Registry.{Registry, get_orchestrator}
use durabletask_rs.Executor.Execute.{execute}
use durabletask_rs.Sequential.{
  Request, request_action, activity, sub_orchestrator, Script, finish, ask, fault, code_of,
  due_after, history_of,
}
use durabletask_rs.Sequential.Replay.{answer_due, execute-history_of}
use durabletask_rs.Examples.Ended.{ended, completion_action-result_payload}
use durabletask_rs.Examples.Sequence.{one_reply, two_replies}
use durabletask_rs.Examples.SubSequence.{
  sub_sequence_function, after_activity, completion_due, sub_sequence_orchestration_completes,
}

module _ (json_string : Json String) (json_input : Json (Option String))
    (json_unit : Json (Unit {0})) (activity_name orchestrator_name : String) where
  -- `sequence_orchestration`
  unfoldable pub sequence_orchestration :
      OrchestratorContext → Async (OrchestratorResult (Unit {0}))
  unfolding call_activity call_sub_orchestrator
  sequence_orchestration octx = do
    _ ←
        call_activity json_string json_string activity_name
          (record { activity_type = "test_activity" }) "test"
    _ ←
        call_sub_orchestrator json_input json_string orchestrator_name
          (record {
            orchestrator_type = "sub_sequence_orchestration";
            instance_id = "sub-" ++ octx.instance_id;
          })
          (some "test")
    output (ok (value tt))

  abbrev handed_on : Async (OrchestratorResult (Unit {0})) → Async (OrchestratorResult String)
  handed_on code = code >>= λ r. output (result_payload json_unit r)

  -- What is left of the code: at the sub-orchestrator's call, and at its end.
  abbrev sub_call : String → Result String String → Async (OrchestratorResult (Unit {0}))
  sub_call id written =
      sub_orchestrator_input json_input json_string orchestrator_name "sub_sequence_orchestration"
        ("sub-" ++ id) written
      >>= λ s. output (ok (value tt))

  abbrev read_output : Result String String → Script
  read_output (ok s) = finish (result_payload json_unit (ok (value tt)))
  read_output (err e) = fault output_deserialization

  abbrev sub_request : String → String → Request
  sub_request id text = sub_orchestrator "sub_sequence_orchestration" ("sub-" ++ id) (some text)

  abbrev call_sub : String → String → Result String String → Script
  call_sub id text (err e) = fault output_deserialization
  call_sub id text (ok s) =
      ask (sub_request id text) (λ r. read_output (json_string.from_json_payload r))

  abbrev pub after_reply : String → String → String → Script
  after_reply id text r = call_sub id text (json_string.from_json_payload r)

  read_code :
      (written : Result String String)
      → handed_on (deserialized written >>= λ s. output (ok (value tt)))
        ≡ code_of (read_output written)
  read_code (ok s) = refl
  read_code (err e) = refl

  sub_code :
      (id text : String) (written : Result String String)
      → json_input.as_json_payload (some "test") ≡ ok text
      → handed_on
          (deserialized written >>= λ s. sub_call id (json_input.as_json_payload (some "test")))
        ≡ code_of (call_sub id text written)
  sub_code id text (err e) wrote = refl
  sub_code id text (ok s) wrote =
      ap (λ (o : Result String String). handed_on (sub_call id o)) wrote
      ∙ ap
          (λ (k : String → Async (OrchestratorResult String)).
            ask_sub_orchestrator "sub_sequence_orchestration" ("sub-" ++ id) (some text)
              (λ task. await_task task k))
          (fun_ext λ r. read_code (json_string.from_json_payload r))

  -- Where serde writes both inputs, the registered function is a script's code.
  sequence_code :
      (id first text : String) (input : Option String)
      → json_string.as_json_payload "test" ≡ ok first
      → json_input.as_json_payload (some "test") ≡ ok text
      → orchestrator_function json_unit sequence_orchestration (new_context id input)
        ≡ code_of (ask (activity "test_activity" (some first)) (after_reply id text))
  unfolding orchestrator_function sequence_orchestration call_activity call_sub_orchestrator
      new_context
  sequence_code id first text input wrote_first wrote =
      ap
        (λ (o : Result String String). handed_on (
          schedule_input json_string json_string activity_name "test_activity" o >>= λ s.
          sub_call id (json_input.as_json_payload (some "test"))))
        wrote_first
      ∙ ap
          (λ (k : String → Async (OrchestratorResult String)).
            ask_activity "test_activity" (some first) (λ task. await_task task k))
          (fun_ext λ r. sub_code id text (json_string.from_json_payload r) wrote)

  -- What is due once the activity has replied, and once the sub-orchestrator has too.
  sub_due :
      (clock : ℤ → ℕ → Timestamp) (id text out s : String)
      → json_string.from_json_payload out ≡ ok s
      → due_after clock 2 (after_reply id text out) []
        ≡ returns (request_action clock (sub_request id text) (pos 2))
  sub_due clock id text out s read =
      ap (λ (o : Result String String). due_after clock 2 (call_sub id text o) []) read

  end_due :
      (clock : ℤ → ℕ → Timestamp) (id text out s sub_out sub_s : String)
      → json_string.from_json_payload out ≡ ok s
      → json_string.from_json_payload sub_out ≡ ok sub_s
      → due_after clock 2 (after_reply id text out) (sub_out ∷ [])
        ≡ returns (ended (pos 3) (json_unit.as_json_payload tt))
  end_due clock id text out s sub_out sub_s read sub_read =
      ap (λ (o : Result String String). due_after clock 2 (call_sub id text o) (sub_out ∷ [])) read
      ∙ ap (λ (o : Result String String). due_after clock 3 (read_output o) []) sub_read
      ∙ ap returns (completion_action-result_payload json_unit (pos 3) tt)

  module _ {Chan Act : Type 0} (host : Host Chan) (registry : Registry Act) (id : String)
      (now : Timestamp) (uuid : String) (child_name : String) where
    abbrev child_function : OrchestratorFunction
    child_function = sub_sequence_function json_string child_name

    -- Once its activity has replied, the example asks for its sub-orchestrator; that orchestrator,
    -- run under the asked name and instance with the asked input, completes with serde's text of the
    -- output of its own activity once that has replied; and with this text as the reply the example
    -- completes with serde's text of (), or as failed where serde has none. Both are registered, and
    -- serde reads the replies and reads back what it writes.
    pub sub_orchestration_roundtrip :
        (input : Option String) (first text out s child_out child_s result : String)
        → get_orchestrator registry "sequence_orchestration"
          ≡ some (orchestrator_function json_unit sequence_orchestration)
        → get_orchestrator registry "sub_sequence_orchestration" ≡ some child_function
        → json_string.as_json_payload "test" ≡ ok first
        → json_input.as_json_payload (some "test") ≡ ok text
        → json_string.from_json_payload text ≡ ok "test"
        → json_string.from_json_payload out ≡ ok s
        → json_string.from_json_payload child_out ≡ ok child_s
        → json_string.as_json_payload child_s ≡ ok result
        → json_string.from_json_payload result ≡ ok child_s
        → (execute host registry id [] (
              new_execution_started_event now uuid "sequence_orchestration" id input none none none
              ∷ history_of host.clock now 1
                  (ask (activity "test_activity" (some first)) (after_reply id text))
                  (out ∷ []))
            ≡ returns (
                ok (
                  request_action host.clock
                    (sub_orchestrator "sub_sequence_orchestration" ("sub-" ++ id) (some text))
                    (pos 2)
                  ∷ [])))
          × (execute host registry ("sub-" ++ id) [] (
                new_execution_started_event now uuid "sub_sequence_orchestration"
                  ("sub-" ++ id)
                  (some text)
                  none
                  none
                  none
                ∷ history_of host.clock now 1
                    (ask
                      (activity "test_activity" (some first))
                      (after_activity json_string child_name))
                    (child_out ∷ []))
              ≡ returns (ok (ended (pos 2) (ok result) ∷ [])))
          × (execute host registry id [] (
                new_execution_started_event now uuid "sequence_orchestration" id input none none
                  none
                ∷ history_of host.clock now 1
                    (ask (activity "test_activity" (some first)) (after_reply id text))
                    (out ∷ result ∷ []))
              ≡ returns (ok (ended (pos 3) (json_unit.as_json_payload tt) ∷ [])))
    sub_orchestration_roundtrip input first text out s child_out child_s result found child_found
          wrote_first wrote read_text read child_read wrote_result read_result =
        let (asks, completes) =
          sub_sequence_orchestration_completes json_string child_name host registry ("sub-" ++ id)
            now uuid "sub_sequence_orchestration" text "test" first child_found read_text
            wrote_first in
        (
          run (out ∷ []) one_reply ∙ ap answer_due (sub_due host.clock id text out s read),
          completes child_out
              ∙ ap (completion_due json_string child_name) child_read
              ∙ ap (λ (a : OrchestratorAction). returns (ok (a ∷ [])))
                  (completion_action-result_payload json_string (pos 2) child_s
                    ∙ ap (ended (pos 2)) wrote_result),
          run (out ∷ result ∷ []) two_replies
              ∙ ap answer_due (end_due host.clock id text out s result child_s read read_result),
        )
      where
        run :
            (replies : List String)
            → length replies < i32_max
            → execute host registry id [] (
                new_execution_started_event now uuid "sequence_orchestration" id input none none
                  none
                ∷ history_of host.clock now 1
                    (ask (activity "test_activity" (some first)) (after_reply id text))
                    replies)
              ≡ answer_due (
                  due_after host.clock 1
                    (ask (activity "test_activity" (some first)) (after_reply id text))
                    replies)
        run replies few =
            execute-history_of host registry id now uuid "sequence_orchestration" input
              (orchestrator_function json_unit sequence_orchestration)
              (activity "test_activity" (some first)) (after_reply id text) replies [] _ found
              (sequence_code id first text input wrote_first wrote) few refl
