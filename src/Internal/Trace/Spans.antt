-- ===== src/Internal/Trace/Spans.antt =====
-- The spans that internal.rs starts. OpenTelemetry's tracer and the clock are parameters.
use Prim.Native.String.{◌++◌}
use durabletask_rs.Prelude.{◌+◌, String, List, [], ◌∷◌, if◌then◌else◌, ◌==◌, string_eq}
use mathlib.Core.List.{◌++◌ as append}
use durabletask_rs.Prelude.Int.{ℤ, pos, negsuc}
use durabletask_rs.Prelude.Decimal.{to_string}
use durabletask_rs.Prelude.Outcome.{Outcome, returns, ◌>>=◌, unwrap}
use durabletask_rs.Proto.{ExecutionStartedEvent, TimerFiredEvent}

-- `opentelemetry::Value`, in the two forms that the code makes.
pub data Value : Type 0 where
  text : String → Value
  number : ℤ → Value

pub record KeyValue : Type 0 where
  pub key : String
  pub value : Value

pub data SpanKind : Type 0 where
  client server internal : SpanKind

-- What is set on a `SpanBuilder`.
pub record SpanBuilder (SystemTime : Type 0) : Type 0 where
  pub name : String
  pub kind : SpanKind
  pub start_timestamp : SystemTime
  pub attributes : List KeyValue

pub record Tracer (Context Span SystemTime : Type 0) : Type 0 where
  pub start_with_context : SpanBuilder SystemTime → Context → Span
  pub end_span : Span → Span
  -- `SystemTime::now`
  pub now : SystemTime

abbrev key_value : String → String → KeyValue
key_value key value = record { key = key; value = text value }

-- `to_string` of an `i32`
abbrev pub i32_to_string : ℤ → String
i32_to_string (pos n) = to_string n
i32_to_string (negsuc n) = "-" ++ to_string (n + 1)

unfoldable pub span_name_of : String → String → String → String
span_name_of task_type task_name task_version =
    if task_version == ""
    then if task_name == "" then task_type else task_type ++ ("||" ++ task_name)
    else task_type ++ ("||" ++ (task_name ++ ("||" ++ task_version)))

unfoldable pub span_attributes_of : String → List KeyValue → List KeyValue
span_attributes_of task_version attributes =
    if task_version == ""
    then attributes
    else append attributes (key_value "durabletask.task.version" task_version ∷ [])

module _ {Context Span SystemTime : Type 0} (tracer : Tracer Context Span SystemTime) where
  unfoldable pub start_new_span :
      Context → String → String → String → List KeyValue → SpanKind → SystemTime → Span
  unfolding span_name_of span_attributes_of
  start_new_span ctx task_type task_name task_version attributes kind timestamp =
      tracer.start_with_context
        (record {
          name = span_name_of task_type task_name task_version;
          kind = kind;
          start_timestamp = timestamp;
          attributes = span_attributes_of task_version attributes;
        })
        ctx

  unfoldable pub start_new_create_orchestration_span : Context → String → String → String → Span
  unfolding start_new_span
  start_new_create_orchestration_span ctx name version instance_id =
      start_new_span ctx "create_orchestration" name version
        (key_value "durabletask.type" "orchestration"
          ∷ key_value "durabletask.task.name" name
          ∷ key_value "durabletask.task.instance_id" instance_id
          ∷ [])
        client tracer.now

  unfoldable pub start_new_run_orchestration_span :
      Context → ExecutionStartedEvent → SystemTime → Outcome Span
  unfolding start_new_span
  start_new_run_orchestration_span ctx es started_time = do
    inst ← unwrap es.orchestration_instance
    version ← unwrap es.version
    returns (
        start_new_span ctx "orchestration" es.name version
          (key_value "durabletask.type" "orchestration"
            ∷ key_value "durabletask.task.name" es.name
            ∷ key_value "durabletask.task.instance_id" inst.instance_id
            ∷ [])
          server started_time)

  unfoldable pub start_new_activity_span : Context → String → String → String → ℤ → Span
  unfolding start_new_span to_string
  start_new_activity_span ctx name version instance_id task_id =
      start_new_span ctx "activity" name version
        (key_value "durabletask.type" "activity"
          ∷ key_value "durabletask.task.name" name
          ∷ key_value "durabletask.task.task_id" (i32_to_string task_id)
          ∷ key_value "durabletask.task.instance_id" instance_id
          ∷ [])
        server tracer.now

  -- The span that was ended; its function's result is always `Ok(())`.
  unfoldable pub start_and_end_new_timer_span :
      Context → TimerFiredEvent → SystemTime → String → Outcome Span
  unfolding start_new_span to_string
  start_and_end_new_timer_span ctx tf created_time instance_id = do
    fire_at ← unwrap tf.fire_at
    returns (
        tracer.end_span (
          start_new_span ctx "timer" "" ""
            (key_value "durabletask.type" "timer"
              ∷ record { key = "durabletask.fire_at"; value = number fire_at.seconds }
              ∷ key_value "durabletask.task.task_id" (i32_to_string tf.timer_id)
              ∷ key_value "durabletask.task.instance_id" instance_id
              ∷ [])
            internal created_time))
