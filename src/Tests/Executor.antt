-- ===== src/Tests/Executor.antt =====
-- Runs of the executor.
use durabletask_rs.Prelude.{String, ◌≡◌, refl, none, some, List, [], ◌∷◌, ◌++◌}
use durabletask_rs.Prelude.Int.{pos}
use durabletask_rs.Prelude.Outcome.{returns}
use durabletask_rs.Prelude.Result.{ok}
use durabletask_rs.Proto.{Timestamp, HistoryEvent, completed}
use durabletask_rs.Internal.Events.{
  new_orchestrator_started_event, new_execution_started_event, new_task_scheduled_event,
  new_task_completed_event,
}
use durabletask_rs.Internal.Actions.{new_complete_orchestration_action, new_schedule_task_action}
use durabletask_rs.Types.Function.{
  Json, OrchestratorFunction, value, call_activity, orchestrator_function,
}
use durabletask_rs.Types.Async.{output, ◌>>=◌}
use durabletask_rs.Registry.{Registry}
use durabletask_rs.Executor.Execute.{execute}
use durabletask_rs.Tests.Host.{host}

abbrev pub text_json : Json String
text_json = record { as_json_payload = λ s. ok s; from_json_payload = λ s. ok s }

-- `test_orchestration` of executor.rs.
unfoldable pub test_orchestration : OrchestratorFunction
unfolding call_activity orchestrator_function
test_orchestration = orchestrator_function text_json λ octx. do
  _ ← call_activity text_json text_json "test_activity" (record { activity_type = "test" }) "input"
  output (ok (value "hello"))

abbrev pub registry : Registry Unit
registry = record { orchestrators = ("test", test_orchestration) ∷ []; activities = [] }

abbrev pub now : Timestamp
now = record { seconds = pos 0; nanos = pos 0 }

abbrev pub history : List HistoryEvent
history =
    new_orchestrator_started_event now
    ∷ new_execution_started_event now "uuid" "test" "test" none none none none
    ∷ []

-- `test_context` of executor.rs: the scheduled activity is acknowledged, so no action is left.
test_context :
    execute host registry "test" []
      (history ++ new_task_scheduled_event now (pos 1) "test" none none none ∷ [])
    ≡ returns (ok [])
unfolding execute test_orchestration new_orchestrator_started_event new_execution_started_event
    new_task_scheduled_event
test_context = refl

first_turn :
    execute host registry "test" [] history
    ≡ returns (ok (new_schedule_task_action (pos 1) "test" (some "input") ∷ []))
unfolding execute test_orchestration new_orchestrator_started_event new_execution_started_event
    new_schedule_task_action
first_turn = refl

done :
    execute host registry "test" history (
      new_task_scheduled_event now (pos 1) "test" none none none
      ∷ new_task_completed_event now (pos 1) (some "hello")
      ∷ [])
    ≡ returns (ok (new_complete_orchestration_action (pos 2) completed (some "hello") [] none ∷ []))
unfolding execute test_orchestration new_orchestrator_started_event new_execution_started_event
    new_task_scheduled_event new_task_completed_event new_complete_orchestration_action
done = refl
