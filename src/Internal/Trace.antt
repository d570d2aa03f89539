-- ===== src/Internal/Trace.antt =====
-- The trace contexts of internal.rs: a span's context is written as the text that W3C calls
-- `traceparent`, and read back from it. OpenTelemetry's types are parameters.
pub mod Spans
pub mod Flags
pub mod Written
pub mod Legacy
use Prim.Native.String.{◌++◌}
use mathlib.Core.Option
use durabletask_rs.Prelude.{
  ℕ, ◌≡◌, String, Bool, true, false, Option, none, some, List, length, get_elem?, if◌then◌else◌, [],
  ◌∷◌, ◌==◌, string_eq,
}
use durabletask_rs.Prelude.Decimal.{to_string}
use durabletask_rs.Prelude.Outcome.{Outcome, returns, panics, unwrap_none, unwrap_err}
use durabletask_rs.Prelude.Text.{split, lacks, u8_from_hex}
use durabletask_rs.Proto.{TraceContext}

-- OpenTelemetry's ids and trace states, with what their documentation says of their texts: an id is
-- written in hexadecimal digits and read back from them, and from nothing else; a header that is
-- written is read back, and the default trace state alone has an empty header. A trace state is
-- taken for the entries that it holds.
pub record TraceApi (TraceId SpanId TraceState : Type 0) : Type 0 where
  -- `TraceId::from_hex`, `SpanId::from_hex` and their `Display`
  pub trace_id_from_hex : String → Option TraceId
  pub trace_id_text : TraceId → String
  pub span_id_from_hex : String → Option SpanId
  pub span_id_text : SpanId → String
  -- `TraceState::from_str`, `TraceState::header` and `TraceState::default`
  pub trace_state_from_str : String → Option TraceState
  pub trace_state_header : TraceState → String
  pub default_trace_state : TraceState
  -- `TraceFlags::is_sampled`
  pub is_sampled : ℕ → Bool
  pub trace_id_from_hex-trace_id_text : (t : TraceId) → trace_id_from_hex (trace_id_text t) ≡ some t
  pub span_id_from_hex-span_id_text : (s : SpanId) → span_id_from_hex (span_id_text s) ≡ some s
  pub lacks-trace_id_text : (t : TraceId) → lacks b'-' (trace_id_text t) ≡ true
  pub lacks-span_id_text : (s : SpanId) → lacks b'-' (span_id_text s) ≡ true
  pub trace_id_from_hex_dash :
      (text : String) → lacks b'-' text ≡ false → trace_id_from_hex text ≡ none
  pub trace_state_from_str-trace_state_header :
      (s : TraceState) → trace_state_from_str (trace_state_header s) ≡ some s
  pub trace_state_header_empty :
      (s : TraceState) → trace_state_header s ≡ "" → s ≡ default_trace_state

-- What `SpanContext::new` takes. The flags are a `u8`.
pub record SpanContext (TraceId SpanId TraceState : Type 0) : Type 0 where
  pub trace_id : TraceId
  pub span_id : SpanId
  pub trace_flags : ℕ
  pub is_remote : Bool
  pub trace_state : TraceState

module _ {TraceId SpanId TraceState : Type 0} (api : TraceApi TraceId SpanId TraceState) where
  abbrev pub SpanContextResult : Type 0
  SpanContextResult = Outcome (Option (SpanContext TraceId SpanId TraceState))

  abbrev context_of : TraceId → SpanId → TraceState → ℕ → SpanContext TraceId SpanId TraceState
  context_of trace_id span_id trace_state trace_flags = record {
    trace_id = trace_id;
    span_id = span_id;
    trace_flags = trace_flags;
    is_remote = true;
    trace_state = trace_state;
  }

  -- A `?` on each of the three parts, in their order; an error is `none`.
  abbrev with_flags : TraceId → SpanId → TraceState → Option ℕ → SpanContextResult
  with_flags trace_id span_id state none = returns none
  with_flags trace_id span_id state (some flags) =
      returns (some (context_of trace_id span_id state flags))

  -- `TraceState::from_str(trace_state).unwrap()`
  abbrev with_state : TraceId → SpanId → ℕ → Option TraceState → SpanContextResult
  with_state trace_id span_id flags none = panics unwrap_err
  with_state trace_id span_id flags (some state) =
      returns (some (context_of trace_id span_id state flags))

  abbrev state_of : TraceId → SpanId → ℕ → Option String → SpanContextResult
  state_of trace_id span_id flags none =
      returns (some (context_of trace_id span_id api.default_trace_state flags))
  state_of trace_id span_id flags (some text) =
      with_state trace_id span_id flags (api.trace_state_from_str text)

  abbrev then_state : TraceId → SpanId → Option String → Option ℕ → SpanContextResult
  then_state trace_id span_id state none = returns none
  then_state trace_id span_id state (some flags) = state_of trace_id span_id flags state

  abbrev then_span_id :
      (TraceId → SpanId → SpanContextResult) → TraceId → Option SpanId → SpanContextResult
  then_span_id go trace_id none = returns none
  then_span_id go trace_id (some span_id) = go trace_id span_id

  abbrev then_ids :
      (TraceId → SpanId → SpanContextResult) → Option TraceId → Option SpanId → SpanContextResult
  then_ids go none span_id = returns none
  then_ids go (some trace_id) span_id = then_span_id go trace_id span_id

  -- `parts.get(3).unwrap()`, read as flags
  abbrev legacy_flags : Option String → TraceId → SpanId → SpanContextResult
  legacy_flags none trace_id span_id = panics unwrap_none
  legacy_flags (some part) trace_id span_id =
      with_flags trace_id span_id api.default_trace_state (u8_from_hex part)

  -- The branch for what is not four parts: older messages have the ids in two fields.
  abbrev pub legacy_context : TraceContext → List String → SpanContextResult
  legacy_context tc parts =
      then_ids (legacy_flags (get_elem? parts 3)) (api.trace_id_from_hex tc.trace_parent)
        (api.span_id_from_hex tc.span_id)

  abbrev pub parts_context : TraceContext → List String → SpanContextResult
  parts_context tc (version ∷ trace_id ∷ span_id ∷ flags ∷ []) =
      then_ids (λ trace_id span_id. then_state trace_id span_id tc.trace_state (u8_from_hex flags))
        (api.trace_id_from_hex trace_id) (api.span_id_from_hex span_id)
  parts_context tc parts = legacy_context tc parts

  unfoldable pub span_context_from_trace_context : TraceContext → SpanContextResult
  unfolding split u8_from_hex
  span_context_from_trace_context tc = parts_context tc (split b'-' tc.trace_parent)

  -- The context is written when the span is sampled; `Default::default()` gives `span_id` no text.
  unfoldable pub trace_context_from_span :
      Option (SpanContext TraceId SpanId TraceState) → Option TraceContext
  trace_context_from_span none = none
  trace_context_from_span (some span) =
      if api.is_sampled span.trace_flags
      then some (record {
        trace_parent =
            "00-"
            ++ (api.trace_id_text span.trace_id
                ++ ("-" ++ (api.span_id_text span.span_id ++ ("-" ++ to_string span.trace_flags))));
        span_id = "";
        trace_state =
            if api.trace_state_header span.trace_state == ""
            then none
            else some (api.trace_state_header span.trace_state);
      })
      else none

  module _ {Context : Type 0}
      (with_remote : Context → SpanContext TraceId SpanId TraceState → Context) where
    abbrev pub remote_outcome : Context → SpanContextResult → Outcome (Option Context)
    remote_outcome ctx (panics p) = panics p
    remote_outcome ctx (returns found) = returns (Option.map (with_remote ctx) found)

    -- `with_remote` is `TraceContextExt::with_remote_span_context`.
    unfoldable pub context_from_trace_context : Context → TraceContext → Outcome (Option Context)
    unfolding span_context_from_trace_context
    context_from_trace_context ctx tc = elim tc.trace_state [
      | none ↦ returns (some ctx)
      | some state ↦ remote_outcome ctx (span_context_from_trace_context tc)
    ]
