-- ===== src/Registry.antt =====
-- crates/sdk/src/registry.rs: the functions that a worker was given, by name.
-- `Act` is the type of an activity function.
use durabletask_rs.Prelude.{String, Option, string_eq}
use durabletask_rs.Prelude.HashMap.{HashMap, lookup, insert}
use durabletask_rs.Types.Function.{OrchestratorFunction}

pub record Registry (Act : Type 0) : Type 0 where
  pub orchestrators : HashMap String OrchestratorFunction
  pub activities : HashMap String Act

module _ {Act : Type 0} where
  unfoldable pub add_orchestrator : Registry Act → String → OrchestratorFunction → Registry Act
  unfolding insert
  add_orchestrator r name func = record r { orchestrators = insert name func r.orchestrators }

  unfoldable pub add_activity : Registry Act → String → Act → Registry Act
  unfolding insert
  add_activity r name func = record r { activities = insert name func r.activities }

  unfoldable pub get_orchestrator : Registry Act → String → Option OrchestratorFunction
  unfolding lookup
  get_orchestrator r name = lookup name r.orchestrators

  unfoldable pub get_activity : Registry Act → String → Option Act
  unfolding lookup
  get_activity r name = lookup name r.activities
