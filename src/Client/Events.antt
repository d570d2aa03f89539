-- ===== src/Client/Events.antt =====
-- Events that a client raises, up to the orchestrator that awaits them.
use durabletask_rs.Prelude.{◌≡◌, refl, ap, ◌∙◌, String, Option, none, some, [], ◌∷◌}
use durabletask_rs.Prelude.Int.{pos}
use durabletask_rs.Prelude.Outcome.{returns}
use durabletask_rs.Prelude.Result.{ok}
use durabletask_rs.Proto.{Timestamp, HistoryEvent, RaiseEventRequest}
use durabletask_rs.Internal.Events.{new_execution_started_event, new_event_raised_event}
use durabletask_rs.Types.Context.{Host, new_context}
use durabletask_rs.Types.Async.{Async, await_task, ◌>>=◌}
use durabletask_rs.Types.Function.{
  Json, OrchestratorResult, OrchestratorFunction, await_signal_event, deserialized,
}
use durabletask_rs.Registry.{Registry, get_orchestrator}
use durabletask_rs.Executor.Execute.{execute}
use durabletask_rs.Sequential.{Request, start_request, request_action}
use durabletask_rs.Sequential.Signal.{execute_signal_order}
use durabletask_rs.Client.{Sidecar, answered, raise_orchestration_event}

-- The sidecar's event for a request of the client.
abbrev pub event_of : Timestamp → RaiseEventRequest → HistoryEvent
event_of now request = new_event_raised_event now request.name request.input

module _ {St Reply State T : Type 0} (inner : Sidecar St Reply State) (json : Json T) where
  module _ {Chan Act : Type 0} (host : Host Chan) (registry : Registry Act) (id : String)
      (now : Timestamp) (uuid name : String) (start_input : Option String)
      (f : OrchestratorFunction) (awaited raised : String)
      (body : T → Async (OrchestratorResult String))
      (found : get_orchestrator registry name ≡ some f)
      (code : f (new_context id start_input) ≡ (await_signal_event json awaited >>= body))
      (same_name : host.to_lowercase raised ≡ host.to_lowercase awaited) where
    abbrev start : HistoryEvent
    start = new_execution_started_event now uuid name id start_input none none none

    -- What a client raises for an orchestrator that awaits the event is what the orchestrator goes on
    -- with: the client sends the value's text, and with the sidecar's event for that request the
    -- executor answers what the code asks for after this very value. serde reads back what it wrote,
    -- and the names agree in lower case.
    pub raise_orchestration_event-received :
        (val : T) (text : String) (q : Request) (k : String → Async (OrchestratorResult String))
        → json.as_json_payload val ≡ ok text
        → json.from_json_payload text ≡ ok val
        → body val ≡ start_request q (λ task. await_task task k)
        → (request : RaiseEventRequest) × ((st : St)
            → raise_orchestration_event inner json raised (some val) id st
              ≡ answered inner (inner.raise_event request st))
          × (execute host registry id [] (start ∷ event_of now request ∷ [])
              ≡ returns (ok (request_action host.clock q (pos 1) ∷ [])))
    unfolding raise_orchestration_event await_signal_event
    raise_orchestration_event-received val text q k wrote read goes_on = (
      record { instance_id = id; name = raised; input = some text },
      λ st. rw wrote refl,
      (execute_signal_order host registry id now uuid name start_input f awaited raised
          (λ t. deserialized (json.from_json_payload t) >>= body) found code same_name text q k
          (ap (λ r. deserialized r >>= body) read ∙ goes_on)).0,
    )
