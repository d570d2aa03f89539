-- ===== src/Internal/Trace/Written.antt =====
-- What is written of a span's context, and what is read back of it.
use Prim.Native.String.{◌++◌}
use mathlib.Core.Option
use durabletask_rs.Prelude.{
  ℕ, ◌<◌, ◌≡◌, refl, ap, ◌∙◌, String, true, Option, none, some, [], ◌∷◌, if◌then◌else◌, ◌==◌,
  string_eq, ltb, Bool-cases, inl, inr,
}
use durabletask_rs.Prelude.Decimal.{to_string}
use durabletask_rs.Prelude.Outcome.{returns}
use durabletask_rs.Prelude.Text.{split, split-lacks}
use durabletask_rs.Proto.{TraceContext}
use durabletask_rs.Internal.Trace.{
  TraceApi, SpanContext, parts_context, span_context_from_trace_context, trace_context_from_span,
  context_from_trace_context, state_of, then_state, context_of, remote_outcome,
}
use durabletask_rs.Internal.Trace.Flags.{
  reread, u8_from_hex-to_string, lacks-to_string, split_dash, split_version,
}

module _ {TraceId SpanId TraceState : Type 0} (api : TraceApi TraceId SpanId TraceState) where
  -- The text that is written has four parts.
  split_parent :
      (trace_id : TraceId) (span_id : SpanId) (flags : ℕ)
      → flags < 256
      → split b'-' (
          "00-"
          ++ (api.trace_id_text trace_id
              ++ ("-" ++ (api.span_id_text span_id ++ ("-" ++ to_string flags)))))
        ≡ "00" ∷ api.trace_id_text trace_id ∷ api.span_id_text span_id ∷ to_string flags ∷ []
  split_parent trace_id span_id flags h =
      let after_ids =
        split_dash (api.span_id_text span_id) (to_string flags) (api.lacks-span_id_text span_id)
        ∙ ap (api.span_id_text span_id ∷◌)
            (split-lacks b'-' (to_string flags) (lacks-to_string flags h)) in
      split_version _
      ∙ ap ("00" ∷◌) (
          split_dash (api.trace_id_text trace_id) _ (api.lacks-trace_id_text trace_id)
          ∙ ap (api.trace_id_text trace_id ∷◌) after_ids)

  -- The written text of flags is read to the base 16, and a context that was read is remote.
  abbrev pub read_back :
      SpanContext TraceId SpanId TraceState → Option (SpanContext TraceId SpanId TraceState)
  read_back span =
      Option.map (λ (flags : ℕ). record span { trace_flags = flags; is_remote = true })
        (reread span.trace_flags)

  abbrev pub header_of : TraceState → Option String
  header_of state =
      if api.trace_state_header state == "" then none else some (api.trace_state_header state)

  abbrev written : SpanContext TraceId SpanId TraceState → TraceContext
  written span = record {
    trace_parent =
        "00-"
        ++ (api.trace_id_text span.trace_id
            ++ ("-" ++ (api.span_id_text span.span_id ++ ("-" ++ to_string span.trace_flags))));
    span_id = "";
    trace_state = header_of span.trace_state;
  }

  trace_context_from_span-written :
      (span : SpanContext TraceId SpanId TraceState)
      → api.is_sampled span.trace_flags ≡ true
      → trace_context_from_span api (some span) ≡ some (written span)
  unfolding trace_context_from_span
  trace_context_from_span-written span h = rw h refl

  -- A state that is written is read back, and no header stands for the default state.
  state_of-header_of :
      (t : TraceId) (s : SpanId) (flags : ℕ) (state : TraceState)
      → state_of api t s flags (header_of state) ≡ returns (some (context_of api t s state flags))
  state_of-header_of t s flags state = elim (Bool-cases (api.trace_state_header state == "")) [
    | inl e ↦ rw (e, api.trace_state_header_empty state ((string_eq.eq_iff _ _).0 e)) refl
    | inr e ↦ rw (e, api.trace_state_from_str-trace_state_header state) refl
  ]

  read_flags :
      (span : SpanContext TraceId SpanId TraceState)
      → then_state api span.trace_id span.span_id
          (header_of span.trace_state)
          (reread span.trace_flags)
        ≡ returns (read_back span)
  read_flags span = elim (Bool-cases (ltb span.trace_flags 100)) [
    | inl e ↦ rw (e, state_of-header_of) refl
    | inr e ↦ rw e refl
  ]

  span_context_from_trace_context-written :
      (span : SpanContext TraceId SpanId TraceState)
      → span.trace_flags < 256
      → span_context_from_trace_context api (written span) ≡ returns (read_back span)
  unfolding span_context_from_trace_context
  span_context_from_trace_context-written span h =
      ap (parts_context api (written span))
        (split_parent span.trace_id span.span_id span.trace_flags h)
      ∙ rw
          (
            api.trace_id_from_hex-trace_id_text,
            api.span_id_from_hex-span_id_text,
            u8_from_hex-to_string span.trace_flags h,
          )
          (read_flags span)

  -- What is written of a sampled span's context is read back: the ids and the state as they were, and
  -- the decimal text of the flags to the base 16, so flags below 10 as they were, flags from 10 to
  -- 99 as others, and of flags from 100 on nothing is read. The flags are a byte.
  pub span_context_from_trace_context-trace_context_from_span :
      (span : SpanContext TraceId SpanId TraceState)
      → span.trace_flags < 256
      → api.is_sampled span.trace_flags ≡ true
      → Option.map (span_context_from_trace_context api) (trace_context_from_span api (some span))
        ≡ some (returns (read_back span))
  span_context_from_trace_context-trace_context_from_span span h sampled =
      rw (trace_context_from_span-written span sampled)
        (ap some (span_context_from_trace_context-written span h))

  module _ {Context : Type 0}
      (with_remote : Context → SpanContext TraceId SpanId TraceState → Context) where
    with_trace_state :
        (ctx : Context) (tc : TraceContext) (state : String)
        → tc.trace_state ≡ some state
        → context_from_trace_context api with_remote ctx tc
          ≡ remote_outcome api with_remote ctx (span_context_from_trace_context api tc)
    unfolding context_from_trace_context
    with_trace_state ctx tc state h = rw h refl

    without_trace_state :
        (ctx : Context) (tc : TraceContext)
        → tc.trace_state ≡ none
        → context_from_trace_context api with_remote ctx tc ≡ returns (some ctx)
    unfolding context_from_trace_context
    without_trace_state ctx tc h = rw h refl

    context_from_trace_context-written :
        (ctx : Context) (span : SpanContext TraceId SpanId TraceState)
        → span.trace_flags < 256
        → context_from_trace_context api with_remote ctx (written span)
          ≡ returns (
              if api.trace_state_header span.trace_state == ""
              then some ctx
              else Option.map (with_remote ctx) (read_back span))
    context_from_trace_context-written ctx span h =
        elim (Bool-cases (api.trace_state_header span.trace_state == "")) [
          | inl e ↦ without_trace_state ctx (written span) (rw e refl) ∙ (rw e refl)
          | inr e ↦
              with_trace_state ctx (written span) (api.trace_state_header span.trace_state)
                (rw e refl)
              ∙ ap (remote_outcome api with_remote ctx)
                  (span_context_from_trace_context-written span h)
              ∙ (rw e refl)
        ]

    -- A context that was written of a sampled span is the parent of what is read into another
    -- context only where the span's trace state has a header; where its header is empty, as that of
    -- the default state may be, the other context comes back as it was. The flags are a byte.
    pub context_from_trace_context-trace_context_from_span :
        (ctx : Context) (span : SpanContext TraceId SpanId TraceState)
        → span.trace_flags < 256
        → api.is_sampled span.trace_flags ≡ true
        → Option.map
            (context_from_trace_context api with_remote ctx)
            (trace_context_from_span api (some span))
          ≡ some (
              returns (
                if api.trace_state_header span.trace_state == ""
                then some ctx
                else Option.map (with_remote ctx) (read_back span)))
    context_from_trace_context-trace_context_from_span ctx span h sampled =
        rw (trace_context_from_span-written span sampled)
          (ap some (context_from_trace_context-written ctx span h))
