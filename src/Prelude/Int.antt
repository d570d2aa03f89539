-- ===== src/Prelude/Int.antt =====
-- Rust's `i32`: an integer, with `+= 1` as it wraps in a release build.
use Prim.Native.Nat.{ℕ, zero, suc, ◌+◌, ◌<◌}
use mathlib.Core.Path.{◌≡◌}
use mathlib.Core.Logic.{◌↔◌}
use mathlib.Core.Bool.{Bool, true, false}
use native.Mathlib.Omega.{arith}
use durabletask_rs.Prelude.Tests.{PartialEq, nat_beq, if◌then◌else◌}

-- `negsuc n` is -(n + 1).
pub data ℤ : Type 0 where
  pos : ℕ → ℤ
  negsuc : ℕ → ℤ

abbrev pub int_beq : ℤ → ℤ → Bool
int_beq (pos a) (pos b) = nat_beq a b
int_beq (negsuc a) (negsuc b) = nat_beq a b
int_beq _ _ = false

pub int_beq_iff : (a b : ℤ) → (int_beq a b ≡ true) ↔ (a ≡ b)
int_beq_iff (pos a) (pos b) = ground arith
int_beq_iff (negsuc a) (negsuc b) = ground arith
int_beq_iff (pos a) (negsuc b) = (λ h. cc, λ h. cc)
int_beq_iff (negsuc a) (pos b) = (λ h. cc, λ h. cc)

instance abbrev pub int_eq : PartialEq ℤ
int_eq = record { eq = int_beq; eq_iff = int_beq_iff }

-- `i32::MAX`; it is kept shut in proofs, where only its order with other numbers counts.
unfoldable pub i32_max : ℕ
i32_max = 2147483647

pub i32_max_pos : 0 < i32_max
unfolding i32_max
i32_max_pos = omega arith

-- `n + 1` on an `i32`: from `i32::MAX` it wraps to `i32::MIN`.
unfoldable pub i32_succ : ℤ → ℤ
unfolding i32_max
i32_succ (pos n) = if nat_beq n i32_max then negsuc i32_max else pos (n + 1)
i32_succ (negsuc zero) = pos 0
i32_succ (negsuc (suc n)) = negsuc n

-- `n > 0`
abbrev pub is_pos : ℤ → Bool
is_pos (pos zero) = false
is_pos (pos (suc n)) = true
is_pos (negsuc n) = false

-- `n >= 0`
abbrev pub is_nonneg : ℤ → Bool
is_nonneg (pos n) = true
is_nonneg (negsuc n) = false
