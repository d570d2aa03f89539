-- ===== src/Api/Requests/NewOrchestration.antt =====
-- The methods of `NewOrchestrationBuilder`.
use durabletask_rs.Prelude.{String, Option, none, some}
use durabletask_rs.Proto.{Timestamp, OrchestrationIdReusePolicy, CreateInstanceRequest}
use durabletask_rs.Types.Function.{Json}
use durabletask_rs.Api.Requests.{InstanceId, NewOrchestrationBuilder, text_or_empty}

unfoldable pub new_orchestration : NewOrchestrationBuilder
new_orchestration = record {
  instance_id = none;
  orchestration_id_reuse_policy = none;
  input = none;
  scheduled_start_timestamp = none;
}

unfoldable pub instance_id : InstanceId → NewOrchestrationBuilder → NewOrchestrationBuilder
instance_id id b = record b { instance_id = some id }

unfoldable pub orchestration_id_reuse_policy :
    OrchestrationIdReusePolicy → NewOrchestrationBuilder → NewOrchestrationBuilder
orchestration_id_reuse_policy policy b = record b { orchestration_id_reuse_policy = some policy }

unfoldable pub input : {T : Type 0} → Json T → T → NewOrchestrationBuilder → NewOrchestrationBuilder
input json val b = record b { input = some (text_or_empty (json.as_json_payload val)) }

unfoldable pub raw_input : String → NewOrchestrationBuilder → NewOrchestrationBuilder
raw_input text b = record b { input = some text }

unfoldable pub start_time : Timestamp → NewOrchestrationBuilder → NewOrchestrationBuilder
start_time time b = record b { scheduled_start_timestamp = some time }

abbrev id_or_empty : Option InstanceId → String
id_or_empty none = ""
id_or_empty (some i) = i.id

unfoldable pub build_request : NewOrchestrationBuilder → CreateInstanceRequest
build_request b = record {
  instance_id = id_or_empty b.instance_id;
  name = "name";
  version = none;
  input = b.input;
  scheduled_start_timestamp = b.scheduled_start_timestamp;
  orchestration_id_reuse_policy = b.orchestration_id_reuse_policy;
  execution_id = none;
}
