-- ===== src/Types/Function.antt =====
-- The typed interface of types.rs: what an orchestrator calls, and how user functions are wrapped.
-- serde is a parameter: `Json A` is how a type is written as JSON text and read from it. The bytes of
-- a JSON text are kept as the text, since `into_bytes` and `from_utf8` undo one another on it.
use durabletask_rs.Prelude.{
  ◌≡◌, ap, String, Bool, Option, none, some, if◌then◌else◌, ◌==◌, string_eq,
}
use durabletask_rs.Prelude.Outcome.{input_serialization, output_deserialization}
use durabletask_rs.Prelude.Result.{Result, ok, err}
use durabletask_rs.Task.{CompletableTask}
use durabletask_rs.Types.Context.{OrchestratorContext}
use durabletask_rs.Types.Async.{
  AsyncWith, Async, output, ask_activity, ask_sub_orchestrator, ask_signal, await_task, forever,
  abort, ◌>>=◌,
}

-- serde's two directions at one type; a failure carries serde's message.
pub record Json (A : Type 0) : Type 0 where
  pub as_json_payload : A → Result String String
  pub from_json_payload : String → Result String A

pub data OrchestratorResultValue (T : Type 0) : Type 0 where
  continue_as_new : OrchestratorResultValue T
  value : T → OrchestratorResultValue T

abbrev pub OrchestratorResult : Type 0 → Type 0
OrchestratorResult T = Result String (OrchestratorResultValue T)

-- A registered orchestrator: from its context to its code, whose value is JSON text.
abbrev pub OrchestratorFunction : Type 0
OrchestratorFunction = OrchestratorContext → Async (OrchestratorResult String)

module _ {O : Type 0} (json : Json O) where
  -- `o.as_json_payload()?`
  abbrev pub output_payload : Result String String → OrchestratorResult String
  output_payload (ok text) = ok (value text)
  output_payload (err e) = err e

  unfoldable pub result_payload : OrchestratorResult O → OrchestratorResult String
  result_payload (err e) = err e
  result_payload (ok continue_as_new) = ok continue_as_new
  result_payload (ok (value o)) = output_payload (json.as_json_payload o)

  -- A value that serde writes is handed on as its text.
  pub result_payload_lem :
      (o : O) (text : String)
      → json.as_json_payload o ≡ ok text
      → result_payload (ok (value o)) ≡ ok (value text)
  unfolding result_payload
  result_payload_lem o text wrote = ap output_payload wrote

  -- `OrchestratorFunction::new`
  unfoldable pub orchestrator_function :
      (OrchestratorContext → Async (OrchestratorResult O)) → OrchestratorFunction
  unfolding result_payload
  orchestrator_function f octx = f octx >>= λ r. output (result_payload r)

-- `result.expect("output deserialization failed")`
abbrev pub deserialized : {J R : Type 0} → Result String R → AsyncWith J R
deserialized (ok r) = output r
deserialized (err e) = abort output_deserialization

-- A task's result, read as a value.
abbrev pub await_value : {J R : Type 0} → Json R → CompletableTask → AsyncWith J R
await_value json task = await_task task (λ text. deserialized (json.from_json_payload text))

pub record ActivityOptions : Type 0 where
  pub activity_type : String

pub record SubOrchestratorOptions : Type 0 where
  pub orchestrator_type : String
  pub instance_id : String

-- The type's name, from the options or from `type_name::<F>()`.
abbrev pub type_or : String → String → String
type_or chosen type_name = if chosen == "" then type_name else chosen

module _ {J A R : Type 0} (input_json : Json A) (output_json : Json R) (type_name : String) where
  abbrev pub schedule_input : String → Result String String → AsyncWith J R
  schedule_input activity_type (err e) = abort input_serialization
  schedule_input activity_type (ok input) =
      ask_activity activity_type (some input) (await_value output_json)

  -- `type_name` is `type_name::<F>()` of the activity. The result is always `Ok`.
  unfoldable pub call_activity : ActivityOptions → A → AsyncWith J R
  call_activity options input =
      schedule_input (type_or options.activity_type type_name) (input_json.as_json_payload input)

  abbrev pub sub_orchestrator_input : String → String → Result String String → AsyncWith J R
  sub_orchestrator_input orchestrator_type instance_id (err e) = abort input_serialization
  sub_orchestrator_input orchestrator_type instance_id (ok input) =
      ask_sub_orchestrator orchestrator_type instance_id (some input) (await_value output_json)

  unfoldable pub call_sub_orchestrator : SubOrchestratorOptions → A → AsyncWith J R
  call_sub_orchestrator options input =
      sub_orchestrator_input (type_or options.orchestrator_type type_name) options.instance_id
        (input_json.as_json_payload input)

unfoldable pub await_signal_event : {J R : Type 0} → Json R → String → AsyncWith J R
await_signal_event json name = ask_signal name (await_value json)

-- `continue_as_new` returns a future that is never ready, whatever its arguments.
unfoldable pub continue_as_new_future : {A : Type 0} → A → Bool → Async (Unit {0})
continue_as_new_future new_input save_events = forever

module _ {A : Type 0} (json : Json A) where
  abbrev pub some_input : Result String A → Result String (Option A)
  some_input (ok a) = ok (some a)
  some_input (err e) = err e

  abbrev input_of : Option String → Result String (Option A)
  input_of none = ok none
  input_of (some text) = some_input (json.from_json_payload text)

  -- `OrchestratorContext::input`
  unfoldable pub context_input : OrchestratorContext → Result String (Option A)
  context_input octx = input_of octx.input

module _ {A R O : Type 0} (json : Json A) (into : R → OrchestratorResultValue O) where
  abbrev pub into_result : Result String R → OrchestratorResult O
  into_result (ok r) = ok (into r)
  into_result (err e) = err e

  abbrev pub with_input :
      (OrchestratorContext → Option A → Async (Result String R))
      → OrchestratorContext
      → Result String (Option A)
      → Async (OrchestratorResult O)
  with_input f octx (ok a) = f octx a >>= λ r. output (into_result r)
  with_input f octx (err e) = output (err e)

  -- `into_orchestrator`; `into` is `R: Into<OrchestratorResultValue<O>>`.
  unfoldable pub into_orchestrator :
      (OrchestratorContext → Option A → Async (Result String R))
      → OrchestratorContext
      → Async (OrchestratorResult O)
  unfolding context_input
  into_orchestrator f octx = with_input f octx (context_input json octx)
