-- ===== src/Examples/Signals.antt =====
-- examples/src/external_events.rs and terminate_test.rs: orchestrators that the outside completes.
use durabletask_rs.Prelude.{◌≡◌, refl, ap, String, Bool, true, false, Option, none, some, [], ◌∷◌}
use durabletask_rs.Prelude.Int.{pos}
use durabletask_rs.Prelude.Outcome.{returns}
use durabletask_rs.Prelude.Result.{ok}
use durabletask_rs.Proto.{Timestamp, terminated}
use durabletask_rs.Internal.Events.{
  new_execution_started_event, new_event_raised_event, new_execution_terminated_event,
}
use durabletask_rs.Internal.Actions.{new_complete_orchestration_action}
use durabletask_rs.Types.Context.{Host, OrchestratorContext}
use durabletask_rs.Types.Async.{Async, output, ask_timer, await_task, ◌>>=◌}
use durabletask_rs.Types.Function.{
  Json, OrchestratorResult, value, deserialized, await_signal_event, orchestrator_function,
  result_payload,
}
use durabletask_rs.Registry.{Registry, get_orchestrator}
use durabletask_rs.Executor.Poll.{completion_action}
use durabletask_rs.Executor.Execute.{execute}
use durabletask_rs.Sequential.{timer, asked_event, request_action, finish, history_of}
use durabletask_rs.Examples.Sequence.{one_reply}
use durabletask_rs.Sequential.Signal.{execute_signal_returned}
use durabletask_rs.Sequential.Terminated.{execute_terminated}

-- `external_events`
unfoldable pub external_events :
    Json String → OrchestratorContext → Async (OrchestratorResult String)
unfolding await_signal_event
external_events json_string octx = do
  result ← await_signal_event json_string "test_signal"
  output (ok (value result))

-- `terminate_test`
unfoldable pub terminate_test : OrchestratorContext → Async (OrchestratorResult (Unit {0}))
terminate_test octx = ask_timer 30000 λ task. await_task task λ fired. output (ok (value tt))

module _ {Chan Act : Type 0} (host : Host Chan) (registry : Registry Act) (id : String)
    (now : Timestamp) (uuid name : String) (input : Option String) where
  -- The example is completed with the text of the value that its event brings while it waits. An event
  -- that comes before the orchestrator starts is taken and its result lost: no action is answered.
  pub external_events_completes :
      (json_string : Json String) (raised text s : String)
      → get_orchestrator registry name
        ≡ some (orchestrator_function json_string (external_events json_string))
      → host.to_lowercase raised ≡ host.to_lowercase "test_signal"
      → json_string.from_json_payload text ≡ ok s
      → (execute host registry id [] (
            new_execution_started_event now uuid name id input none none none
            ∷ new_event_raised_event now raised (some text)
            ∷ [])
          ≡ returns
              (ok (completion_action (pos 1) (result_payload json_string (ok (value s))) ∷ [])))
        × (execute host registry id [] (
              new_event_raised_event now raised (some text)
              ∷ new_execution_started_event now uuid name id input none none none
              ∷ [])
            ≡ returns (ok []))
  unfolding orchestrator_function external_events await_signal_event
  external_events_completes json_string raised text s found same_name read =
      execute_signal_returned host registry id now uuid name input
        (orchestrator_function json_string (external_events json_string)) "test_signal" raised
        (λ t.
          deserialized (json_string.from_json_payload t) >>= (λ r. output (ok (value r))) >>= λ r.
          output (result_payload json_string r))
        found refl same_name text (result_payload json_string (ok (value s)))
        (ap
          (λ r. deserialized r >>= (λ v. output (ok (value v))) >>= λ v.
            output (result_payload json_string v))
          read)

  -- The example is completed as terminated while it waits for its timer, which is still asked for if
  -- the sidecar has not acknowledged it.
  pub terminate_test_terminates :
      (json_unit : Json (Unit {0})) (reason : Option String) (recurse : Bool)
      → get_orchestrator registry name ≡ some (orchestrator_function json_unit terminate_test)
      → (execute host registry id [] (
            new_execution_started_event now uuid name id input none none none
            ∷ asked_event host.clock now (timer 30000) (pos 1)
            ∷ new_execution_terminated_event now reason recurse
            ∷ [])
          ≡ returns (ok (new_complete_orchestration_action (pos 2) terminated none [] none ∷ [])))
        × (execute host registry id [] (
              new_execution_started_event now uuid name id input none none none
              ∷ new_execution_terminated_event now reason recurse
              ∷ [])
            ≡ returns (
                ok (
                  request_action host.clock (timer 30000) (pos 1)
                  ∷ new_complete_orchestration_action (pos 2) terminated none [] none
                  ∷ [])))
  unfolding orchestrator_function terminate_test history_of
  terminate_test_terminates json_unit reason recurse found =
      let k = λ (fired : String). finish (result_payload json_unit (ok (value tt))) in
      let at = λ (acknowledged : Bool).
        execute_terminated host registry id now input reason recurse uuid name
          (orchestrator_function json_unit terminate_test) (timer 30000) k [] (timer 30000) k found
          refl refl one_reply acknowledged [] _ refl in
      (at true, at false)
