-- ===== src/Internal/Status.antt =====
-- `to_runtime_status_string` and `from_runtime_status_string` of internal.rs. The names of the enum
-- are in code that prost generates: they enter as the parameter `StatusNames`.
use Prim.Native.String.{◌++◌, len}
use text.Mathlib.Text.{get?}
use text.Mathlib.TextLemmas.{append-nil, append_cancel_left}
use text.Mathlib.TextPositions.{len-append, get?-append_middle}
use durabletask_rs.Prelude.{
  ℕ, String, ◌≡◌, refl, sym, ap, subst, ◌∙◌, ◌↔◌, Option, none, some, arith,
}
use durabletask_rs.Prelude.Outcome.{Outcome, returns, panics, unwrap_none, slice_error}
use durabletask_rs.Proto.{OrchestrationStatus}

abbrev pub status_prefix : String
status_prefix = "ORCHESTRATION_STATUS_"

-- What prost documents of an enum: `from_str_name` finds a variant by its name in the proto file, and
-- the names of this enum begin with the enum's own name, as the protobuf style guide has it.
pub record StatusNames : Type 0 where
  pub as_str_name : OrchestrationStatus → String
  pub from_str_name : String → Option OrchestrationStatus
  pub short_name : OrchestrationStatus → String
  pub as_str_name-prefix : (s : OrchestrationStatus) → as_str_name s ≡ status_prefix ++ short_name s
  pub from_str_name_iff :
      (name : String) (s : OrchestrationStatus)
      → (from_str_name name ≡ some s) ↔ (name ≡ as_str_name s)

abbrev cut : Option String → Outcome String
cut none = panics slice_error
cut (some t) = returns t

abbrev unwrap_status : Option OrchestrationStatus → Outcome OrchestrationStatus
unwrap_status none = panics unwrap_none
unwrap_status (some s) = returns s

module _ (names : StatusNames) where
  open names use {as_str_name, from_str_name, short_name, as_str_name-prefix, from_str_name_iff}

  unfoldable pub to_runtime_status_string : OrchestrationStatus → Outcome String
  to_runtime_status_string status = let name = as_str_name status in cut (get? name 21 (len name))

  unfoldable pub from_runtime_status_string : String → Outcome OrchestrationStatus
  from_runtime_status_string status = unwrap_status (from_str_name (status_prefix ++ status))

  cut_prefix : (t : String) → get? (status_prefix ++ t) 21 (len (status_prefix ++ t)) ≡ some t
  cut_prefix t =
      subst (λ (u : String). get? (status_prefix ++ u) 21 (len (status_prefix ++ t)) ≡ some t)
        (append-nil t)
        (subst (λ (n : ℕ). get? (status_prefix ++ (t ++ "")) 21 n ≡ some t)
          (sym (len-append status_prefix t)) (get?-append_middle status_prefix t ""))

  -- The text of a status is its name without the prefix: the cut at byte 21 never panics.
  pub to_runtime_status_string_lem :
      (s : OrchestrationStatus) → to_runtime_status_string s ≡ returns (short_name s)
  unfolding to_runtime_status_string
  to_runtime_status_string_lem s = rw (as_str_name-prefix s, cut_prefix (short_name s)) refl

  found_status :
      (t : String) (s : OrchestrationStatus)
      → from_runtime_status_string t ≡ returns s
      → from_str_name (status_prefix ++ t) ≡ some s
  unfolding from_runtime_status_string
  found_status t s h = ground arith

  -- A text reads as a status exactly when it is the text of that status.
  pub from_runtime_status_string_iff :
      (t : String) (s : OrchestrationStatus)
      → (from_runtime_status_string t ≡ returns s) ↔ (to_runtime_status_string s ≡ returns t)
  unfolding from_runtime_status_string
  from_runtime_status_string_iff t s = (
    λ h.
        let named : status_prefix ++ t ≡ status_prefix ++ short_name s =
          (from_str_name_iff (status_prefix ++ t) s).0 (found_status t s h)
          ∙ as_str_name-prefix s in
        let same : t ≡ short_name s = append_cancel_left status_prefix t (short_name s) named in
        to_runtime_status_string_lem s ∙ ap returns (sym same),
    λ h.
        let same : returns (short_name s) ≡ returns t = sym (to_runtime_status_string_lem s) ∙ h in
        let short : short_name s ≡ t = cc same in
        let named : status_prefix ++ t ≡ as_str_name s =
          ap (λ (u : String). status_prefix ++ u) (sym short) ∙ sym (as_str_name-prefix s) in
        ap unwrap_status ((from_str_name_iff (status_prefix ++ t) s).1 named),
  )
