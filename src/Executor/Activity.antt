-- ===== src/Executor/Activity.antt =====
-- `ActivityExecutor` of executor.rs.
use durabletask_rs.Prelude.{ℕ, String, Option, none, some}
use durabletask_rs.Prelude.Int.{ℤ}
use durabletask_rs.Prelude.Outcome.{Outcome, returns, ◌>>=◌}
use durabletask_rs.Prelude.Result.{Result, ok, err}
use durabletask_rs.Environment.{Environment}
use durabletask_rs.Types.Activity.{ActivityContext, ActivityFunction}
use durabletask_rs.Registry.{Registry, get_activity}

module _ (Value : ℕ → Type 0) where
  abbrev pub some_output : Result String String → Result String (Option String)
  some_output (ok text) = ok (some text)
  some_output (err e) = err e

  abbrev pub call_found :
      ActivityContext Value
      → Option String
      → Option (ActivityFunction Value)
      → Outcome (Result String (Option String))
  call_found ctx input none = returns (ok none)
  call_found ctx input (some activity_fn) = do
    output ← activity_fn ctx input
    returns (some_output output)

  -- `ActivityExecutor::execute`
  unfoldable pub execute_by_name :
      Registry (ActivityFunction Value)
      → Environment Value
      → String
      → String
      → ℤ
      → Option String
      → Outcome (Result String (Option String))
  unfolding get_activity
  execute_by_name registry environment instance_id name task_id input =
      call_found
        (record { orchestration_id = instance_id; task_id = task_id; environment = environment })
        input (get_activity registry name)
