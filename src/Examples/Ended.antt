-- ===== src/Examples/Ended.antt =====
-- What is answered when an orchestrator returns a value: serde's text of it, or the failure to write it.
use durabletask_rs.Prelude.{◌≡◌, refl, String, none, some, []}
use durabletask_rs.Prelude.Int.{ℤ}
use durabletask_rs.Prelude.Result.{Result, ok, err}
use durabletask_rs.Proto.{OrchestratorAction, completed, failed}
use durabletask_rs.Internal.Actions.{new_complete_orchestration_action}
use durabletask_rs.Types.Function.{Json, value, output_payload, result_payload}
use durabletask_rs.Executor.Poll.{completion_action}

-- The last action by the text of the value: completed with it, or failed where there is none.
abbrev pub ended : ℤ → Result String String → OrchestratorAction
ended id (ok text) = new_complete_orchestration_action id completed (some text) [] none
ended id (err e) = new_complete_orchestration_action id failed none [] none

module _ {O : Type 0} (json : Json O) where
  pub completion_action-result_payload :
      (id : ℤ) (o : O)
      → completion_action id (result_payload json (ok (value o)))
        ≡ ended id (json.as_json_payload o)
  unfolding completion_action result_payload
  completion_action-result_payload id o = go (json.as_json_payload o)
    where
      go :
          (written : Result String String)
          → completion_action id (output_payload json written) ≡ ended id written
      go (ok text) = refl
      go (err e) = refl
