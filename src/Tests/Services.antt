-- ===== src/Tests/Services.antt =====
-- The theorems on signals, builders, the filter and the client, at concrete values.
use durabletask_rs.Prelude.{ℕ, suc, ◌≡◌, refl, String, true, not, none, some, [], ◌∷◌}
use durabletask_rs.Prelude.Int.{pos}
use durabletask_rs.Prelude.Outcome.{returns, panics, unwrap_none}
use durabletask_rs.Prelude.Result.{ok}
use durabletask_rs.Proto.{HistoryEvent, RaiseEventRequest, running}
use durabletask_rs.Internal.Events.{new_execution_started_event, new_event_raised_event}
use durabletask_rs.Types.Context.{new_context}
use durabletask_rs.Types.Async.{Async, output, ask_signal, await_task, ◌>>=◌}
use durabletask_rs.Types.Function.{
  OrchestratorResult, OrchestratorFunction, value, await_signal_event,
}
use durabletask_rs.Registry.{Registry, get_orchestrator}
use durabletask_rs.Executor.Execute.{execute}
use durabletask_rs.Sequential.{Request, activity, start_request, request_action}
use durabletask_rs.Sequential.Signal.{execute_signal_order, execute_signal_empty}
use durabletask_rs.Api.Metadata.{
  OrchestrationMetadata, new_builder, set_name, build, error_of, first_missing, required,
  builder_of, build-first_missing, build-builder_of,
}
use durabletask_rs.Filter.{
  bool, event_enabled, record_all, on_new_span, says_replaying, event_enabled-record_all,
}
use durabletask_rs.Client.{Sidecar, answered, raise_orchestration_event}
use durabletask_rs.Client.Events.{event_of, raise_orchestration_event-received}
use durabletask_rs.Tests.Host.{host}
use durabletask_rs.Tests.Executor.{text_json, now}

abbrev done : OrchestratorResult String
done = ok (value "done")

abbrev next : Request
next = activity "next" none

-- It awaits an event, then an activity.
abbrev signalled : OrchestratorFunction
signalled octx =
    ask_signal "approval"
      (λ task. await_task task (λ x. start_request next (λ t. await_task t (λ r. output done))))

abbrev typed_body : String → Async (OrchestratorResult String)
typed_body x = start_request next (λ t. await_task t (λ r. output done))

abbrev typed : OrchestratorFunction
typed octx = await_signal_event text_json "approval" >>= typed_body

abbrev registry : Registry Unit
registry = record {
  orchestrators = ("signalled", signalled) ∷ ("typed", typed) ∷ [];
  activities = [];
}

found_signalled : get_orchestrator registry "signalled" ≡ some signalled
unfolding get_orchestrator
found_signalled = refl

found_typed : get_orchestrator registry "typed" ≡ some typed
unfolding get_orchestrator
found_typed = refl

abbrev start_of : String → HistoryEvent
start_of name = new_execution_started_event now "uuid" name "id" none none none none

execute_signal_order_example :
    (execute host registry "id" []
        (start_of "signalled" ∷ new_event_raised_event now "approval" (some "yes") ∷ [])
      ≡ returns (ok (request_action host.clock next (pos 1) ∷ [])))
    × (execute host registry "id" []
          (new_event_raised_event now "approval" (some "yes") ∷ start_of "signalled" ∷ [])
        ≡ returns (ok (request_action host.clock next (pos 1) ∷ [])))
execute_signal_order_example =
    execute_signal_order host registry "id" now "uuid" "signalled" none signalled "approval"
      "approval" (λ x. start_request next (λ t. await_task t (λ r. output done))) found_signalled
      refl refl "yes" next (λ r. output done) refl

execute_signal_empty_example :
    (execute host registry "id" []
        (start_of "signalled" ∷ new_event_raised_event now "approval" none ∷ [])
      ≡ panics unwrap_none)
    × (execute host registry "id" []
          (new_event_raised_event now "approval" none ∷ start_of "signalled" ∷ [])
        ≡ panics unwrap_none)
execute_signal_empty_example =
    execute_signal_empty host registry "id" now "uuid" "signalled" none signalled "approval"
      "approval" (λ x. start_request next (λ t. await_task t (λ r. output done))) found_signalled
      refl refl

build-first_missing_example :
    error_of (build (set_name "n" new_builder))
    ≡ first_missing (required (set_name "n" new_builder))
build-first_missing_example = build-first_missing (set_name "n" new_builder)

abbrev metadata : OrchestrationMetadata
metadata = record {
  instance_id = record { id = "test-id" };
  name = "test-name";
  runtime_status = running;
  created_at = now;
  last_updated_at = now;
  serialized_input = some "test input";
  serialized_output = none;
  serialized_custom_status = none;
  failure_details = none;
}

build-builder_of_example : build (builder_of metadata) ≡ ok metadata
build-builder_of_example = build-builder_of metadata

event_enabled-record_all_example :
    event_enabled
      (some 1)
      (record_all ((1, ("replaying", bool true) ∷ []) ∷ (2, []) ∷ []) (on_new_span [] 1 []))
    ≡ returns (not (says_replaying (("replaying", bool true) ∷ [])))
event_enabled-record_all_example =
    event_enabled-record_all 1 [] ((1, ("replaying", bool true) ∷ []) ∷ (2, []) ∷ []) []

-- A sidecar that counts the calls.
abbrev counting : Sidecar ℕ String String
counting = record {
  start_instance = λ request n. (ok request.instance_id, suc n);
  get_instance = λ request n. (ok none, suc n);
  terminate_instance = λ request n. (ok "", suc n);
  raise_event = λ request n. (ok "", suc n);
  suspend_instance = λ request n. (ok "", suc n);
  resume_instance = λ request n. (ok "", suc n);
  purge_instances = λ request n. (ok "", suc n);
}

typed_code :
    typed (new_context "id" none) ≡ (await_signal_event text_json "approval" >>= typed_body)
typed_code = refl

raise_orchestration_event-received_example :
    (request : RaiseEventRequest) × ((st : ℕ)
      → raise_orchestration_event counting text_json "approval" (some "yes") "id" st
        ≡ answered counting (counting.raise_event request st))
    × (execute host registry "id" [] (start_of "typed" ∷ event_of now request ∷ [])
        ≡ returns (ok (request_action host.clock next (pos 1) ∷ [])))
raise_orchestration_event-received_example =
    raise_orchestration_event-received counting text_json host registry "id" now "uuid" "typed" none
      typed "approval" "approval" typed_body found_typed typed_code refl "yes" "yes" next
      (λ r. output done) refl refl refl
