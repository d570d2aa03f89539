-- ===== src/Prelude/Text.antt =====
-- Rust's `str::split` by a character, and `u8::from_str_radix` to the base 16.
use Prim.Native.Nat.{ℕ, ◌+◌, ◌*◌, ◌-◌}
use Prim.Native.Char.{Char, code}
use Prim.Native.String.{String, ◌++◌}
use text.Mathlib.TextLemmas.{cons-append, nil-append}
use mathlib.Core.Path.{◌≡◌, refl}
use mathlib.Core.Bool.{Bool, true, false, ◌&&◌}
use mathlib.Core.Logic.{inl, inr}
use mathlib.Core.Option.{Option, none, some}
use mathlib.Core.List.{List, [], ◌∷◌}
use durabletask_rs.Prelude.Tests.{ltb, leb, nat_beq, if◌then◌else◌, Bool-cases}

abbrev pub push_first : Char → List String → List String
push_first c [] = String.◌∷◌ c String.[] ∷ []
push_first c (part ∷ parts) = String.◌∷◌ c part ∷ parts

-- `text.split(separator)`: there is a part more than there are separators.
unfoldable pub split : ℕ → String → List String
split separator String.[] = String.[] ∷ []
split separator (String.◌∷◌ c text) =
    let parts = split separator text in
    if nat_beq (code c) separator then String.[] ∷ parts else push_first c parts

-- A text without the separator.
unfoldable pub lacks : ℕ → String → Bool
lacks separator String.[] = true
lacks separator (String.◌∷◌ c text) =
    if nat_beq (code c) separator then false else lacks separator text

pub split-lacks :
    (separator : ℕ) (text : String) → lacks separator text ≡ true → split separator text ≡ text ∷ []
unfolding split lacks
split-lacks separator String.[] h = refl
split-lacks separator (String.◌∷◌ c text) h = elim (Bool-cases (nat_beq (code c) separator)) [
  | inl e ↦ absurd (let bad : ◌≡◌ {A = Bool} false true = rw e at h in cc)
  | inr e ↦ rw (e, split-lacks separator text (rw e at h)) refl
]

-- The part before the first separator.
pub split_first :
    (separator : ℕ) (c : Char) (text rest : String)
    → nat_beq (code c) separator ≡ true
    → lacks separator text ≡ true
    → split separator (text ++ String.◌∷◌ c rest) ≡ text ∷ split separator rest
unfolding split lacks
split_first separator c String.[] rest e h = rw (nil-append, e) refl
split_first separator c (String.◌∷◌ d text) rest e h =
    elim (Bool-cases (nat_beq (code d) separator)) [
      | inl f ↦ absurd (let bad : ◌≡◌ {A = Bool} false true = rw f at h in cc)
      | inr f ↦ rw (cons-append, f, split_first separator c text rest e (rw f at h)) refl
    ]

-- The value of a hexadecimal digit.
abbrev hex_digit : ℕ → Option ℕ
hex_digit c =
    if leb b'0' c && leb c b'9'
    then some (c - b'0')
    else if leb b'a' c && leb c b'f'
    then some (c - b'a' + 10)
    else if leb b'A' c && leb c b'F'
    then some (c - b'A' + 10)
    else none

-- `checked_mul` and `checked_add` of the next digit.
abbrev next_u8 : ℕ → Option ℕ → Option ℕ
next_u8 value none = none
next_u8 value (some digit) =
    let value' = value * 16 + digit in if ltb value' 256 then some value' else none

abbrev hex_from : Option ℕ → String → Option ℕ
hex_from none text = none
hex_from (some value) String.[] = some value
hex_from (some value) (String.◌∷◌ c text) = hex_from (next_u8 value (hex_digit (code c))) text

abbrev hex_digits : String → Option ℕ
hex_digits String.[] = none
hex_digits (String.◌∷◌ c text) = hex_from (some 0) (String.◌∷◌ c text)

-- `u8::from_str_radix(text, 16).ok()`: a plus sign may stand before the digits.
unfoldable pub u8_from_hex : String → Option ℕ
u8_from_hex String.[] = none
u8_from_hex (String.◌∷◌ c text) =
    if nat_beq (code c) b'+' then hex_digits text else hex_digits (String.◌∷◌ c text)
