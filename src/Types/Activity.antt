-- ===== src/Types/Activity.antt =====
-- The activities' side of types.rs: an activity's context, and how a typed function is wrapped.
-- `Value` is what the environment's types stand for. An activity is the user's code: a function to the
-- value that its future has in the end, or to the panic that ends it.
use durabletask_rs.Prelude.{ℕ, String, Option, none, some}
use durabletask_rs.Prelude.Int.{ℤ}
use durabletask_rs.Prelude.Outcome.{Outcome, returns, ◌>>=◌}
use durabletask_rs.Prelude.Result.{Result, ok, err}
use durabletask_rs.Environment.{Environment, get}
use durabletask_rs.Types.Function.{Json}

module _ (Value : ℕ → Type 0) where
  pub record ActivityContext : Type 0 where
    pub orchestration_id : String
    pub task_id : ℤ
    pub environment : Environment Value

  -- `ActivityContext::environment`
  unfoldable pub environment_value : (t : ℕ) → ActivityContext → Option (Value t)
  unfolding get
  environment_value t ctx = get Value t ctx.environment

  abbrev pub ActivityFunction : Type 0
  ActivityFunction = ActivityContext → Option String → Outcome (Result String String)

  module _ {A O : Type 0} (input_json : Json A) (output_json : Json O)
      (f : ActivityContext → A → Outcome (Result String O)) where
    abbrev serialized : Result String O → Result String String
    serialized (ok o) = output_json.as_json_payload o
    serialized (err e) = err e

    abbrev call_with : ActivityContext → Result String A → Outcome (Result String String)
    call_with ctx (ok deser) = do r ← f ctx deser; returns (serialized r)
    call_with ctx (err e) = returns (err e)

    -- `input.unwrap_or("test".to_string())`
    abbrev text_of : Option String → String
    text_of none = "test"
    text_of (some text) = text

    -- `into_activity_fn`
    unfoldable pub into_activity_fn : ActivityFunction
    into_activity_fn ctx input = call_with ctx (input_json.from_json_payload (text_of input))
