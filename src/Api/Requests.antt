-- ===== src/Api/Requests.antt =====
-- The builders of requests. serde is the parameter `Json`; a value that cannot be written is the empty
-- text, `unwrap_or_else(|_| vec![])`.
pub mod NewOrchestration
use durabletask_rs.Prelude.{String, Bool, Option, none, some}
use durabletask_rs.Prelude.Result.{Result, ok, err}
use durabletask_rs.Proto.{Timestamp, OrchestrationIdReusePolicy, CreateInstanceRequest}
use durabletask_rs.Types.Function.{Json}

abbrev pub text_or_empty : Result String String → String
text_or_empty (ok text) = text
text_or_empty (err e) = ""

pub record InstanceId : Type 0 where
  pub id : String

pub record NewOrchestrationBuilder : Type 0 where
  pub instance_id : Option InstanceId
  pub orchestration_id_reuse_policy : Option OrchestrationIdReusePolicy
  pub input : Option String
  pub scheduled_start_timestamp : Option Timestamp

pub record FetchOrchestrationMetadataBuilder : Type 0 where
  pub get_inputs_and_outputs : Option Bool

unfoldable pub fetch_payloads :
    Bool → FetchOrchestrationMetadataBuilder → FetchOrchestrationMetadataBuilder
fetch_payloads fetch b = record b { get_inputs_and_outputs = some fetch }

pub record RaiseEventBuilder : Type 0 where
  pub input : Option String

unfoldable pub event_payload : {T : Type 0} → Json T → T → RaiseEventBuilder → RaiseEventBuilder
event_payload json payload b = record b {
  input = some (text_or_empty (json.as_json_payload payload));
}

unfoldable pub raw_event_data : String → RaiseEventBuilder → RaiseEventBuilder
raw_event_data payload b = record b { input = some payload }

pub record TerminateBuilder : Type 0 where
  pub output : Option String
  pub recursive : Option Bool

unfoldable pub output : {T : Type 0} → Json T → T → TerminateBuilder → TerminateBuilder
output json datum b = record b { output = some (text_or_empty (json.as_json_payload datum)) }

unfoldable pub raw_output : String → TerminateBuilder → TerminateBuilder
raw_output datum b = record b { output = some datum }

unfoldable pub recursive_terminate : Bool → TerminateBuilder → TerminateBuilder
recursive_terminate recursive b = record b { recursive = some recursive }

pub record PurgeBuilder : Type 0 where
  pub recursive : Option Bool

unfoldable pub recursive_purge : Bool → PurgeBuilder → PurgeBuilder
recursive_purge recursive b = record b { recursive = some recursive }
