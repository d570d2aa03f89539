-- ===== src/Internal/Trace/Flags.antt =====
-- The decimal text of flags, read to the base 16, and the dashes between the parts.
use Prim.Native.String.{◌++◌}
use text.Mathlib.TextLemmas.{append_assoc, cons-append, nil-append}
use durabletask_rs.Prelude.{
  ℕ, zero, suc, ◌+◌, ◌*◌, ◌/◌, ◌%◌, ◌<◌, ◌≡◌, refl, ap, ◌∙◌, String, Bool, true, false, Option,
  none, some, ◌∷◌, if◌then◌else◌, string_eq, nat_beq, nat_beq_iff, ltb, arith, Bool-cases, inl, inr,
}
use durabletask_rs.Prelude.Decimal.{to_string}
use durabletask_rs.Prelude.Text.{split, lacks, u8_from_hex, split_first}

-- What the decimal text of flags reads as, to the base 16.
abbrev pub reread : ℕ → Option ℕ
reread flags = if ltb flags 100 then some (flags / 10 * 16 + flags % 10) else none

same_flags : Option ℕ → Option ℕ → Bool
same_flags none none = true
same_flags (some a) (some b) = nat_beq a b
same_flags _ _ = false

same_flags_sound : (a b : Option ℕ) → same_flags a b ≡ true → a ≡ b
unfolding same_flags
same_flags_sound none none h = refl
same_flags_sound (some a) (some b) h = ap some ((nat_beq_iff a b).0 h)
same_flags_sound none (some b) h = cc
same_flags_sound (some a) none h = cc

-- The text of flags has no dash, and reads as it should.
flags_text_ok : ℕ → Bool
unfolding same_flags u8_from_hex to_string lacks
flags_text_ok flags =
    if lacks b'-' (to_string flags)
    then same_flags (u8_from_hex (to_string flags)) (reread flags)
    else false

-- The same of all flags below a bound.
texts_ok : ℕ → Bool
unfolding flags_text_ok
texts_ok zero = true
texts_ok (suc top) = let rest = texts_ok top in if flags_text_ok top then rest else false

bytes_ok : texts_ok 256 ≡ true
unfolding texts_ok
bytes_ok = refl

texts_ok_below :
    (bound flags : ℕ) → flags < bound → texts_ok bound ≡ true → flags_text_ok flags ≡ true
unfolding texts_ok
texts_ok_below zero flags lt ok = absurd (omega arith)
texts_ok_below (suc top) flags lt ok = elim (Bool-cases (nat_beq flags top)) [
  | inl same ↦ ground (arith, nat_beq_iff flags top)
  | inr other ↦ texts_ok_below top flags (ground (arith, nat_beq_iff flags top)) (ground arith)
]

byte_ok : (flags : ℕ) → flags < 256 → flags_text_ok flags ≡ true
byte_ok flags byte = texts_ok_below 256 flags byte bytes_ok

pub u8_from_hex-to_string : (flags : ℕ) → flags < 256 → u8_from_hex (to_string flags) ≡ reread flags
unfolding flags_text_ok
u8_from_hex-to_string flags byte =
    same_flags_sound _ _ (let ok = byte_ok flags byte in ground arith)

pub lacks-to_string : (flags : ℕ) → flags < 256 → lacks b'-' (to_string flags) ≡ true
unfolding flags_text_ok
lacks-to_string flags byte = let ok = byte_ok flags byte in ground arith

-- A dash ends a part.
pub split_dash :
    (text rest : String)
    → lacks b'-' text ≡ true
    → split b'-' (text ++ ("-" ++ rest)) ≡ text ∷ split b'-' rest
split_dash text rest h =
    ap (λ (t : String). split b'-' (text ++ t))
      (cons-append "-" "" rest ∙ ap (String.◌∷◌ "-") (nil-append rest))
    ∙ split_first b'-' "-" text rest refl h

version_lacks : lacks b'-' "00" ≡ true
unfolding lacks
version_lacks = refl

-- The version and its dash are one text in the code's format.
pub split_version : (rest : String) → split b'-' ("00-" ++ rest) ≡ "00" ∷ split b'-' rest
split_version rest =
    ap (split b'-') (append_assoc "00" "-" rest) ∙ split_dash "00" rest version_lacks
