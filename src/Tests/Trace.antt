-- ===== src/Tests/Trace.antt =====
-- The theorems on internal.rs's trace contexts, at two ids and two trace states.
use durabletask_rs.Prelude.{
  ℕ, ◌≡◌, refl, ap, sym, ◌∙◌, String, Bool, true, false, Option, none, some, [], ◌∷◌, if◌then◌else◌,
  ◌==◌, string_eq, Bool-cases, inl, inr, arith, nat_beq, length, ◌%◌,
}
use mathlib.Core.Option
use durabletask_rs.Prelude.Outcome.{returns, panics, unwrap_none}
use durabletask_rs.Prelude.Text.{lacks, split}
use durabletask_rs.Proto.{TraceContext}
use durabletask_rs.Internal.Trace.{
  TraceApi, SpanContext, span_context_from_trace_context, trace_context_from_span,
  context_from_trace_context,
}
use durabletask_rs.Internal.Trace.Written.{
  span_context_from_trace_context-trace_context_from_span,
  context_from_trace_context-trace_context_from_span,
}
use durabletask_rs.Internal.Trace.Legacy.{span_context_from_trace_context-legacy_outcome}

abbrev id_text : Bool → String
id_text true = "4bf92f35"
id_text false = "00f067aa"

abbrev id_from_hex : String → Option Bool
id_from_hex text =
    if text == "4bf92f35" then some true else if text == "00f067aa" then some false else none

abbrev state_header : Bool → String
state_header true = "congo=t61"
state_header false = ""

abbrev state_from_str : String → Option Bool
state_from_str text = some (text == "congo=t61")

id_from_hex-id_text : (t : Bool) → id_from_hex (id_text t) ≡ some t
id_from_hex-id_text true = refl
id_from_hex-id_text false = refl

lacks-id_text : (t : Bool) → lacks b'-' (id_text t) ≡ true
unfolding lacks
lacks-id_text true = refl
lacks-id_text false = refl

-- A text with a dash is not that of an id.
not_id_text : (text : String) (t : Bool) → lacks b'-' text ≡ false → (text == id_text t) ≡ false
not_id_text text t h = elim (Bool-cases (text == id_text t)) [
  | inl e ↦
      let same = (string_eq.eq_iff text (id_text t)).0 e in
      absurd (
        let bad : ◌≡◌ {A = Bool} true false =
          sym (lacks-id_text t) ∙ (ap (lacks b'-') (sym same) ∙ h) in
        cc)
  | inr e ↦ e
]

id_from_hex_dash : (text : String) → lacks b'-' text ≡ false → id_from_hex text ≡ none
id_from_hex_dash text h = rw (not_id_text text true h, not_id_text text false h) refl

state_from_str-state_header : (s : Bool) → state_from_str (state_header s) ≡ some s
state_from_str-state_header true = refl
state_from_str-state_header false = refl

state_header_empty : (s : Bool) → state_header s ≡ "" → s ≡ false
state_header_empty true h =
    absurd (let bad : ◌≡◌ {A = Bool} false true = (string_eq.eq_iff "congo=t61" "").1 h in cc)
state_header_empty false h = refl

abbrev api : TraceApi Bool Bool Bool
api = record {
  trace_id_from_hex = id_from_hex;
  trace_id_text = id_text;
  span_id_from_hex = id_from_hex;
  span_id_text = id_text;
  trace_state_from_str = state_from_str;
  trace_state_header = state_header;
  default_trace_state = false;
  is_sampled = λ flags. nat_beq (flags % 2) 1;
  trace_id_from_hex-trace_id_text = id_from_hex-id_text;
  span_id_from_hex-span_id_text = id_from_hex-id_text;
  lacks-trace_id_text = lacks-id_text;
  lacks-span_id_text = lacks-id_text;
  trace_id_from_hex_dash = id_from_hex_dash;
  trace_state_from_str-trace_state_header = state_from_str-state_header;
  trace_state_header_empty = state_header_empty;
}

abbrev span : ℕ → Bool → SpanContext Bool Bool Bool
span flags state = record {
  trace_id = true;
  span_id = false;
  trace_flags = flags;
  is_remote = false;
  trace_state = state;
}

abbrev read_span : ℕ → Bool → SpanContext Bool Bool Bool
read_span flags state = record {
  trace_id = true;
  span_id = false;
  trace_flags = flags;
  is_remote = true;
  trace_state = state;
}

-- Flags 11 are read as 17.
span_context_from_trace_context-trace_context_from_span_example :
    Option.map
      (span_context_from_trace_context api)
      (trace_context_from_span api (some (span 11 true)))
    ≡ some (returns (some (read_span 17 true)))
span_context_from_trace_context-trace_context_from_span_example =
    span_context_from_trace_context-trace_context_from_span api (span 11 true) (omega arith) refl

-- A span whose trace state has no header is lost as a parent.
context_from_trace_context-trace_context_from_span_example :
    Option.map
      (context_from_trace_context api (λ ctx (s : SpanContext Bool Bool Bool). s ∷ ctx) [])
      (trace_context_from_span api (some (span 1 false)))
    ≡ some (returns (some []))
context_from_trace_context-trace_context_from_span_example =
    context_from_trace_context-trace_context_from_span api
      (λ ctx (s : SpanContext Bool Bool Bool). s ∷ ctx) [] (span 1 false) (omega arith) refl

abbrev older : TraceContext
older = record { trace_parent = "4bf92f35"; span_id = "00f067aa"; trace_state = none }

older_parts : ¬ (length (split b'-' older.trace_parent) ≡ 4)
unfolding split
older_parts h = omega arith

-- An older message with two ids that are read makes the reader panic.
span_context_from_trace_context-legacy_outcome_example :
    span_context_from_trace_context api older ≡ panics unwrap_none
span_context_from_trace_context-legacy_outcome_example =
    span_context_from_trace_context-legacy_outcome api older older_parts

abbrev flags_one : TraceContext
flags_one = record {
  trace_parent = "00-4bf92f35-00f067aa-01";
  span_id = "";
  trace_state = some "congo=t61";
}

read_flags_one : span_context_from_trace_context api flags_one ≡ returns (some (read_span 1 true))
unfolding span_context_from_trace_context
read_flags_one = refl
