-- ===== src/Tests/Examples.antt =====
-- The theorems on the examples and on what completes an orchestrator, at concrete workers.
use durabletask_rs.Prelude.{ℕ, ◌≡◌, refl, String, none, some, [], ◌∷◌, true, false}
use durabletask_rs.Prelude.Int.{pos}
use durabletask_rs.Prelude.Outcome.{returns}
use durabletask_rs.Prelude.Result.{ok}
use durabletask_rs.Proto.{HistoryEvent, OrchestratorRequest, orchestrator_request, terminated}
use durabletask_rs.Internal.Events.{
  new_execution_started_event, new_event_raised_event, new_execution_terminated_event,
}
use durabletask_rs.Internal.Actions.{new_complete_orchestration_action}
use durabletask_rs.Environment.{Environment}
use durabletask_rs.Types.Async.{output, ask_signal, await_task}
use durabletask_rs.Types.Function.{
  Json, OrchestratorResult, OrchestratorFunction, value, orchestrator_function,
}
use durabletask_rs.Registry.{Registry, get_orchestrator}
use durabletask_rs.Executor.Poll.{completion_action}
use durabletask_rs.Executor.Execute.{execute}
use durabletask_rs.Examples.Sequence.{two_replies}
use durabletask_rs.Sequential.{
  Script, finish, code_of, activity, timer, ask, history_of, request_action,
}
use durabletask_rs.Sequential.Signal.{execute_signal_returned}
use durabletask_rs.Sequential.Terminated.{execute_terminated}
use durabletask_rs.Worker.Laws.{answer, response_to}
use durabletask_rs.Examples.Sequence.{
  sequence_worker, after_timer, sequence_orchestration_completes,
}
use durabletask_rs.Examples.Signals.{external_events, terminate_test}
use durabletask_rs.Examples.Ended.{ended}
use durabletask_rs.Tests.Host.{host}
use durabletask_rs.Tests.Executor.{text_json, now}

abbrev pub unit_json : Json (Unit {0})
unit_json = record { as_json_payload = λ u. ok "null"; from_json_payload = λ s. ok tt }

-- An environment that holds numbers only.
abbrev pub Numbers : ℕ → Type 0
Numbers t = ℕ

abbrev pub environment : Environment Numbers
environment = record { entries = [] }

abbrev request : OrchestratorRequest
request = record {
  instance_id = "test_id4";
  past_events = [];
  new_events =
      new_execution_started_event now "uuid" "sequence_orchestration" "test_id4" none none none none
      ∷ history_of host.clock now 1 (ask (timer 10000) (after_timer text_json unit_json "F"))
          ("" ∷ "done" ∷ []);
}

sequence_orchestration_completes_example :
    answer Numbers host
      (sequence_worker text_json unit_json "F" Numbers "http://localhost:3501").registry
      environment
      (orchestrator_request request)
    ≡ some (response_to request (ended (pos 3) (unit_json.as_json_payload tt) ∷ []))
sequence_orchestration_completes_example =
    sequence_orchestration_completes text_json unit_json "F" Numbers "http://localhost:3501" host
      environment now "uuid" "test" "" "done" "done" none request refl refl refl

abbrev registry : Registry Unit
registry = record {
  orchestrators =
      ("external_events", orchestrator_function text_json (external_events text_json))
      ∷ ("terminate_test", orchestrator_function unit_json terminate_test)
      ∷ [];
  activities = [];
}

found_events :
    get_orchestrator registry "external_events"
    ≡ some (orchestrator_function text_json (external_events text_json))
unfolding get_orchestrator
found_events = refl

found_test :
    get_orchestrator registry "terminate_test"
    ≡ some (orchestrator_function unit_json terminate_test)
unfolding get_orchestrator
found_test = refl

abbrev start_of : String → HistoryEvent
start_of name = new_execution_started_event now "uuid" name "id" none none none none

abbrev done : OrchestratorResult String
done = ok (value "done")

-- It returns with its event.
abbrev signalled : OrchestratorFunction
signalled octx = ask_signal "approval" (λ task. await_task task (λ x. output done))

-- It waits for an activity, and then for a timer.
abbrev then_timer : String → Script
then_timer x = ask (timer 1000) (λ fired. finish done)

abbrev working : OrchestratorFunction
working octx = code_of (ask (activity "work" none) then_timer)

abbrev others : Registry Unit
others = record {
  orchestrators = ("signalled", signalled) ∷ ("working", working) ∷ [];
  activities = [];
}

found_signalled : get_orchestrator others "signalled" ≡ some signalled
unfolding get_orchestrator
found_signalled = refl

found_working : get_orchestrator others "working" ≡ some working
unfolding get_orchestrator
found_working = refl

execute_signal_returned_example :
    (execute host others "id" []
        (start_of "signalled" ∷ new_event_raised_event now "approval" (some "yes") ∷ [])
      ≡ returns (ok (completion_action (pos 1) done ∷ [])))
    × (execute host others "id" []
          (new_event_raised_event now "approval" (some "yes") ∷ start_of "signalled" ∷ [])
        ≡ returns (ok []))
execute_signal_returned_example =
    execute_signal_returned host others "id" now "uuid" "signalled" none signalled "approval"
      "approval" (λ x. output done) found_signalled refl refl "yes" done refl

execute_terminated_example :
    execute host others "id"
      (start_of "working"
        ∷ history_of host.clock now 1 (ask (activity "work" none) then_timer) ("x" ∷ []))
      (new_execution_terminated_event now none true ∷ [])
    ≡ returns (
        ok (
          request_action host.clock (timer 1000) (pos 2)
          ∷ new_complete_orchestration_action (pos 3) terminated none [] none
          ∷ []))
execute_terminated_example =
    execute_terminated host others "id" now none none true "uuid" "working" working
      (activity "work" none) then_timer ("x" ∷ []) (timer 1000) (λ fired. finish done) found_working
      refl refl two_replies false _ _ refl
