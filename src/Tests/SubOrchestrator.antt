-- ===== src/Tests/SubOrchestrator.antt =====
-- The theorems on the two orchestrators of examples/src/sub_orchestrator.rs, where both are registered.
use durabletask_rs.Prelude.{◌≡◌, refl, String, Option, none, some, [], ◌∷◌}
use durabletask_rs.Prelude.Int.{pos}
use durabletask_rs.Prelude.Outcome.{returns}
use durabletask_rs.Prelude.Result.{Result, ok}
use durabletask_rs.Internal.Events.{new_execution_started_event}
use durabletask_rs.Types.Function.{Json, OrchestratorFunction, orchestrator_function}
use durabletask_rs.Registry.{Registry, get_orchestrator}
use durabletask_rs.Executor.Execute.{execute}
use durabletask_rs.Sequential.{activity, sub_orchestrator, ask, history_of, request_action}
use durabletask_rs.Examples.SubSequence.{sub_sequence_function, after_activity}
use durabletask_rs.Examples.SubOrchestrator.{
  sequence_orchestration, after_reply, sub_orchestration_roundtrip,
}
use durabletask_rs.Examples.Ended.{ended}
use durabletask_rs.Tests.Host.{host}
use durabletask_rs.Tests.Executor.{text_json, now}
use durabletask_rs.Tests.Examples.{unit_json}

-- serde writes `Some(text)` as it writes the text.
abbrev input_json : Json (Option String)
input_json = record { as_json_payload = written; from_json_payload = λ s. ok (some s) }
  where
    written : Option String → Result String String
    written none = ok "null"
    written (some text) = ok text

abbrev caller : OrchestratorFunction
caller =
    orchestrator_function unit_json (sequence_orchestration text_json input_json unit_json "F" "G")

abbrev registry : Registry Unit
registry = record {
  orchestrators =
      ("sequence_orchestration", caller)
      ∷ ("sub_sequence_orchestration", sub_sequence_function text_json "F")
      ∷ [];
  activities = [];
}

found_caller : get_orchestrator registry "sequence_orchestration" ≡ some caller
unfolding get_orchestrator
found_caller = refl

found_sub_sequence :
    get_orchestrator registry "sub_sequence_orchestration"
    ≡ some (sub_sequence_function text_json "F")
unfolding get_orchestrator
found_sub_sequence = refl

sub_orchestration_roundtrip_example :
    (execute host registry "id" [] (
        new_execution_started_event now "uuid" "sequence_orchestration" "id" none none none none
        ∷ history_of host.clock now 1
            (ask
              (activity "test_activity" (some "test"))
              (after_reply text_json input_json unit_json "F" "G" "id" "test"))
            ("done" ∷ []))
      ≡ returns (
          ok (
            request_action host.clock
              (sub_orchestrator "sub_sequence_orchestration" "sub-id" (some "test"))
              (pos 2)
            ∷ [])))
    × (execute host registry "sub-id" [] (
          new_execution_started_event now "uuid" "sub_sequence_orchestration" "sub-id"
            (some "test")
            none
            none
            none
          ∷ history_of host.clock now 1
              (ask (activity "test_activity" (some "test")) (after_activity text_json "F"))
              ("done" ∷ []))
        ≡ returns (ok (ended (pos 2) (ok "done") ∷ [])))
    × (execute host registry "id" [] (
          new_execution_started_event now "uuid" "sequence_orchestration" "id" none none none none
          ∷ history_of host.clock now 1
              (ask
                (activity "test_activity" (some "test"))
                (after_reply text_json input_json unit_json "F" "G" "id" "test"))
              ("done" ∷ "done" ∷ []))
        ≡ returns (ok (ended (pos 3) (unit_json.as_json_payload tt) ∷ [])))
sub_orchestration_roundtrip_example =
    sub_orchestration_roundtrip text_json input_json unit_json "F" "G" host registry "id" now "uuid"
      "F" none "test" "test" "done" "done" "done" "done" "done" found_caller found_sub_sequence refl
      refl refl refl refl refl refl
