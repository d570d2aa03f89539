-- ===== src/Internal/Trace/Legacy.antt =====
-- The branch of span_context_from_trace_context for older messages, whose trace_parent does not
-- have four parts.
use durabletask_rs.Prelude.{
  ◌≡◌, refl, ◌∙◌, String, Option, none, some, List, [], ◌∷◌, length, Bool-cases, inl, inr,
}
use durabletask_rs.Prelude.Outcome.{returns, panics, unwrap_none}
use durabletask_rs.Prelude.Text.{split, lacks, split-lacks}
use durabletask_rs.Proto.{TraceContext}
use durabletask_rs.Internal.Trace.{
  TraceApi, SpanContextResult, parts_context, legacy_context, span_context_from_trace_context,
  then_ids, legacy_flags,
}

module _ {TraceId SpanId TraceState : Type 0} (api : TraceApi TraceId SpanId TraceState) where
  -- Without exactly four parts, the branch for older messages is taken.
  parts_context-legacy_context :
      (tc : TraceContext) (parts : List String)
      → ¬ (length parts ≡ 4)
      → parts_context api tc parts ≡ legacy_context api tc parts
  parts_context-legacy_context tc [] h = refl
  parts_context-legacy_context tc (a ∷ []) h = refl
  parts_context-legacy_context tc (a ∷ b ∷ []) h = refl
  parts_context-legacy_context tc (a ∷ b ∷ c ∷ []) h = refl
  parts_context-legacy_context tc (a ∷ b ∷ c ∷ d ∷ []) h = absurd (h refl)
  parts_context-legacy_context tc (a ∷ b ∷ c ∷ d ∷ e ∷ parts) h = refl

  -- Where both ids are read, there is no fourth part.
  abbrev pub legacy_outcome : Option TraceId → Option SpanId → SpanContextResult api
  legacy_outcome (some trace_id) (some span_id) = panics unwrap_none
  legacy_outcome _ _ = returns none

  legacy_parts :
      (trace_id : Option TraceId) (span_id : Option SpanId) (part : Option String)
      → part ≡ none
      → then_ids api (legacy_flags api part) trace_id span_id ≡ legacy_outcome trace_id span_id
  legacy_parts none span_id part h = refl
  legacy_parts (some trace_id) none part h = refl
  legacy_parts (some trace_id) (some span_id) part h = rw h refl

  -- A text that reads as an id is a single part.
  legacy_context-split :
      (tc : TraceContext)
      → legacy_context api tc (split b'-' tc.trace_parent)
        ≡ legacy_outcome (api.trace_id_from_hex tc.trace_parent) (api.span_id_from_hex tc.span_id)
  legacy_context-split tc = elim (Bool-cases (lacks b'-' tc.trace_parent)) [
    | inl e ↦ legacy_parts _ _ _ (rw (split-lacks b'-' tc.trace_parent e) refl)
    | inr e ↦ rw (api.trace_id_from_hex_dash tc.trace_parent e) refl
  ]

  -- A trace_parent that does not have exactly four parts never gives a span context: reading it
  -- panics where it is the text of a trace id and the field span_id that of a span id, and is an error
  -- otherwise.
  pub span_context_from_trace_context-legacy_outcome :
      (tc : TraceContext)
      → ¬ (length (split b'-' tc.trace_parent) ≡ 4)
      → span_context_from_trace_context api tc
        ≡ legacy_outcome (api.trace_id_from_hex tc.trace_parent) (api.span_id_from_hex tc.span_id)
  unfolding span_context_from_trace_context
  span_context_from_trace_context-legacy_outcome tc h =
      parts_context-legacy_context tc (split b'-' tc.trace_parent) h ∙ legacy_context-split tc
