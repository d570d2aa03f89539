-- ===== src/Client.antt =====
-- crates/client/src/lib.rs: the requests that a client sends to the sidecar. The service is a
-- parameter: `Sidecar` has a method per call, on a state of its own. `Reply` stands for the messages
-- that answer a call. Connecting is not modelled.
pub mod Events
use durabletask_rs.Prelude.{◌≡◌, refl, String, Bool, false, Option, none, some}
use durabletask_rs.Prelude.Result.{Result, ok, err}
use durabletask_rs.Proto.{
  CreateInstanceRequest, GetInstanceRequest, TerminateRequest, RaiseEventRequest, SuspendRequest,
  ResumeRequest, PurgeInstancesRequest,
}
use durabletask_rs.Types.Function.{Json}

-- `Transport` errors come from connecting.
pub data Error : Type 0 where
  serde grpc : String → Error

pub record Sidecar (St Reply State : Type 0) : Type 0 where
  pub start_instance : CreateInstanceRequest → St → Result String Reply × St
  pub get_instance : GetInstanceRequest → St → Result String (Option State) × St
  pub terminate_instance : TerminateRequest → St → Result String Reply × St
  pub raise_event : RaiseEventRequest → St → Result String Reply × St
  pub suspend_instance : SuspendRequest → St → Result String Reply × St
  pub resume_instance : ResumeRequest → St → Result String Reply × St
  pub purge_instances : PurgeInstancesRequest → St → Result String Reply × St

abbrev pub text_of : Result String String → Result Error (Option String)
text_of (ok text) = ok (some text)
text_of (err e) = err (serde e)

-- `serde_json::to_string(&input)?` of an input that is there.
abbrev pub input_text : {T : Type 0} → Json T → Option T → Result Error (Option String)
input_text json none = ok none
input_text json (some input) = text_of (json.as_json_payload input)

module _ {St Reply State : Type 0} (inner : Sidecar St Reply State) where
  -- `.await?` and `into_inner`
  abbrev pub answered : {R : Type 0} → Result String R × St → Result Error R × St
  answered (ok r, st) = (ok r, st)
  answered (err e, st) = (err (grpc e), st)

  abbrev send_input :
      {R : Type 0}
      → Result Error (Option String)
      → (Option String → St → Result String R × St)
      → St
      → Result Error R × St
  send_input (ok input) call st = answered (call input st)
  send_input (err e) call st = (err e, st)

  abbrev new_instance : String → String → Option String → CreateInstanceRequest
  new_instance name instance_id input = record {
    instance_id = instance_id;
    name = name;
    version = none;
    input = input;
    scheduled_start_timestamp = none;
    orchestration_id_reuse_policy = none;
    execution_id = none;
  }

  unfoldable pub schedule_new_orchestration :
      {T : Type 0} → Json T → String → Option T → String → St → Result Error Reply × St
  schedule_new_orchestration json name input instance_id =
      send_input (input_text json input)
        (λ text. inner.start_instance (new_instance name instance_id text))

  unfoldable pub get_orchestration_state : String → Bool → St → Result Error (Option State) × St
  get_orchestration_state instance_id fetch_payloads st = answered (
      inner.get_instance
        (record { instance_id = instance_id; get_inputs_and_outputs = fetch_payloads }) st)

  unfoldable pub terminate_orchestration : String → Bool → St → Result Error Reply × St
  terminate_orchestration instance_id recursive st = answered (
      inner.terminate_instance
        (record { instance_id = instance_id; output = none; recursive = recursive }) st)

  unfoldable pub raise_orchestration_event :
      {T : Type 0} → Json T → String → Option T → String → St → Result Error Reply × St
  raise_orchestration_event json name input instance_id =
      send_input (input_text json input) (λ text.
        inner.raise_event (record { instance_id = instance_id; name = name; input = text }))

  unfoldable pub suspend_orchestration : String → St → Result Error Reply × St
  suspend_orchestration instance_id st =
      answered (inner.suspend_instance (record { instance_id = instance_id; reason = none }) st)

  unfoldable pub resume_orchestration : String → St → Result Error Reply × St
  resume_orchestration instance_id st =
      answered (inner.resume_instance (record { instance_id = instance_id; reason = none }) st)

  unfoldable pub purge_orchestration : String → St → Result Error Reply × St
  purge_orchestration instance_id st =
      answered (inner.purge_instances (record { recursive = false; instance_id = instance_id }) st)
