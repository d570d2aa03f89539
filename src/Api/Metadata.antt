-- ===== src/Api/Metadata.antt =====
-- `OrchestrationMetadata` of api.rs, its builder and its two predicates.
use durabletask_rs.Prelude.{
  ◌≡◌, String, Bool, true, false, not, Option, none, some, List, [], ◌∷◌, arith,
}
use durabletask_rs.Prelude.Result.{Result, ok, err, ok_or, ◌>>=◌}
use durabletask_rs.Proto.{
  Timestamp, TaskFailureDetails, OrchestrationStatus, completed, failed, terminated, canceled,
}
use durabletask_rs.Api.Requests.{InstanceId}

pub record OrchestrationMetadata : Type 0 where
  pub instance_id : InstanceId
  pub name : String
  pub runtime_status : OrchestrationStatus
  pub created_at : Timestamp
  pub last_updated_at : Timestamp
  pub serialized_input : Option String
  pub serialized_output : Option String
  pub serialized_custom_status : Option String
  pub failure_details : Option TaskFailureDetails

pub record OrchestrationMetadataBuilder : Type 0 where
  pub instance_id : Option InstanceId
  pub name : Option String
  pub status : Option OrchestrationStatus
  pub created_at : Option Timestamp
  pub last_updated_at : Option Timestamp
  pub serialized_input : Option String
  pub serialized_output : Option String
  pub serialized_custom_status : Option String
  pub failure_details : Option TaskFailureDetails

-- `OrchestrationMetadataBuilder::new`
unfoldable pub new_builder : OrchestrationMetadataBuilder
new_builder = record {
  instance_id = none;
  name = none;
  status = none;
  created_at = none;
  last_updated_at = none;
  serialized_input = none;
  serialized_output = none;
  serialized_custom_status = none;
  failure_details = none;
}

unfoldable pub set_instance_id :
    InstanceId → OrchestrationMetadataBuilder → OrchestrationMetadataBuilder
set_instance_id v b = record b { instance_id = some v }

unfoldable pub set_name : String → OrchestrationMetadataBuilder → OrchestrationMetadataBuilder
set_name v b = record b { name = some v }

unfoldable pub set_status :
    OrchestrationStatus → OrchestrationMetadataBuilder → OrchestrationMetadataBuilder
set_status v b = record b { status = some v }

unfoldable pub set_created_at :
    Timestamp → OrchestrationMetadataBuilder → OrchestrationMetadataBuilder
set_created_at v b = record b { created_at = some v }

unfoldable pub set_last_updated_at :
    Timestamp → OrchestrationMetadataBuilder → OrchestrationMetadataBuilder
set_last_updated_at v b = record b { last_updated_at = some v }

unfoldable pub set_serialized_input :
    String → OrchestrationMetadataBuilder → OrchestrationMetadataBuilder
set_serialized_input v b = record b { serialized_input = some v }

unfoldable pub set_serialized_output :
    String → OrchestrationMetadataBuilder → OrchestrationMetadataBuilder
set_serialized_output v b = record b { serialized_output = some v }

unfoldable pub set_serialized_custom_status :
    String → OrchestrationMetadataBuilder → OrchestrationMetadataBuilder
set_serialized_custom_status v b = record b { serialized_custom_status = some v }

unfoldable pub set_failure_details :
    TaskFailureDetails → OrchestrationMetadataBuilder → OrchestrationMetadataBuilder
set_failure_details v b = record b { failure_details = some v }

-- `build`
unfoldable pub build : OrchestrationMetadataBuilder → Result String OrchestrationMetadata
build b = do
  instance_id ← ok_or b.instance_id "instance_id is required"
  name ← ok_or b.name "name is required"
  status ← ok_or b.status "status is required"
  created_at ← ok_or b.created_at "created_at is required"
  last_updated_at ← ok_or b.last_updated_at "last_updated_at is required"
  ok (record {
    instance_id = instance_id;
    name = name;
    runtime_status = status;
    created_at = created_at;
    last_updated_at = last_updated_at;
    serialized_input = b.serialized_input;
    serialized_output = b.serialized_output;
    serialized_custom_status = b.serialized_custom_status;
    failure_details = b.failure_details;
  })

unfoldable pub is_complete : OrchestrationMetadata → Bool
is_complete m = elim m.runtime_status [
  | completed ↦ true
  | failed ↦ true
  | terminated ↦ true
  | canceled ↦ true
  | _ ↦ false
]

unfoldable pub is_running : OrchestrationMetadata → Bool
unfolding is_complete
is_running m = not (is_complete m)

-- What a builder has, required field by required field, in the order of the checks.
abbrev pub has : {A : Type 0} → Option A → Bool
has none = false
has (some a) = true

abbrev pub required : OrchestrationMetadataBuilder → List (Bool × String)
required b =
    (has b.instance_id, "instance_id is required")
    ∷ (has b.name, "name is required")
    ∷ (has b.status, "status is required")
    ∷ (has b.created_at, "created_at is required")
    ∷ (has b.last_updated_at, "last_updated_at is required")
    ∷ []

abbrev pub first_missing : List (Bool × String) → Option String
first_missing [] = none
first_missing ((true, message) ∷ rest) = first_missing rest
first_missing ((false, message) ∷ rest) = some message

abbrev pub error_of : Result String OrchestrationMetadata → Option String
error_of (ok m) = none
error_of (err e) = some e

-- A builder fails exactly when a required field is missing, with the message of the first one.
pub build-first_missing :
    (b : OrchestrationMetadataBuilder) → error_of (build b) ≡ first_missing (required b)
unfolding build
build-first_missing b = ground arith

abbrev with_option :
    {A : Type 0}
    → (A → OrchestrationMetadataBuilder → OrchestrationMetadataBuilder)
    → Option A
    → OrchestrationMetadataBuilder
    → OrchestrationMetadataBuilder
with_option setter none b = b
with_option setter (some a) b = setter a b

-- The builder on which each field of a metadata was set, the optional ones where they are there.
unfoldable pub builder_of : OrchestrationMetadata → OrchestrationMetadataBuilder
unfolding new_builder set_instance_id set_name set_status set_created_at set_last_updated_at
    set_serialized_input set_serialized_output set_serialized_custom_status set_failure_details
builder_of m = with_option set_failure_details m.failure_details (
    with_option set_serialized_custom_status m.serialized_custom_status (
      with_option set_serialized_output m.serialized_output (
        with_option set_serialized_input m.serialized_input (
          set_last_updated_at m.last_updated_at (
            set_created_at m.created_at (
              set_status m.runtime_status
                (set_name m.name (set_instance_id m.instance_id new_builder))))))))

-- A metadata is what is built when each of its fields is set on a new builder.
pub build-builder_of : (m : OrchestrationMetadata) → build (builder_of m) ≡ ok m
unfolding build builder_of
build-builder_of m = ground arith
