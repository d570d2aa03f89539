-- ===== src/Proto/Client.antt =====
-- The requests of the sidecar's service that a client sends.
use durabletask_rs.Prelude.{String, Bool, Option, List}
use durabletask_rs.Proto.Event.{Timestamp, OrchestrationStatus}

pub data CreateOrchestrationAction : Type 0 where
  error ignore terminate : CreateOrchestrationAction

pub record OrchestrationIdReusePolicy : Type 0 where
  pub operation_status : List OrchestrationStatus
  pub action : CreateOrchestrationAction

-- Without `tags`, which is always empty.
pub record CreateInstanceRequest : Type 0 where
  pub instance_id : String
  pub name : String
  pub version : Option String
  pub input : Option String
  pub scheduled_start_timestamp : Option Timestamp
  pub orchestration_id_reuse_policy : Option OrchestrationIdReusePolicy
  pub execution_id : Option String

pub record GetInstanceRequest : Type 0 where
  pub instance_id : String
  pub get_inputs_and_outputs : Bool

pub record TerminateRequest : Type 0 where
  pub instance_id : String
  pub output : Option String
  pub recursive : Bool

pub record RaiseEventRequest : Type 0 where
  pub instance_id : String
  pub name : String
  pub input : Option String

pub record SuspendRequest : Type 0 where
  pub instance_id : String
  pub reason : Option String

pub record ResumeRequest : Type 0 where
  pub instance_id : String
  pub reason : Option String

-- The one kind of purge that the client asks for is that of an instance.
pub record PurgeInstancesRequest : Type 0 where
  pub recursive : Bool
  pub instance_id : String
