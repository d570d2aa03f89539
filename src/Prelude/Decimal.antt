-- ===== src/Prelude/Decimal.antt =====
-- `to_string` of a non-negative `i32`. Ten rounds are enough for a number below 10 ^ 10.
use Prim.Native.Nat.{ℕ, zero, suc, ◌/◌, ◌%◌, ◌^◌, ◌<◌, ◌≤◌}
use Prim.Native.String.{String, ◌++◌}
use mathlib.Core.Path.{◌≡◌, ap}
use mathlib.Core.Bool.{true}
use native.Mathlib.Nat.{pow-suc}
use native.Mathlib.Omega.{arith}
use mathlib.Core.List.{List, [], ◌∷◌}
use durabletask_rs.Prelude.Lists.{get_or}
use durabletask_rs.Prelude.Tests.{ltb, if◌then◌else◌}

abbrev digits : List String
digits = "0" ∷ "1" ∷ "2" ∷ "3" ∷ "4" ∷ "5" ∷ "6" ∷ "7" ∷ "8" ∷ []

abbrev digit : ℕ → String
digit n = get_or digits n "9"

pub decimal : ℕ → ℕ → String
decimal zero n = ""
decimal (suc rounds) n =
    let front = decimal rounds (n / 10) in if ltb n 10 then digit n else front ++ digit (n % 10)

short : (n : ℕ) → n < 10 → ltb n 10 ≡ true
short n h = ground arith

-- More rounds than enough change nothing: ten are as good as any larger number of them.
pub decimal_enough : (r m n : ℕ) → n < 10 ^ suc r → r ≤ m → decimal (suc m) n ≡ decimal (suc r) n
unfolding decimal
decimal_enough zero m n h le = rw (short n h)
decimal_enough (suc r) zero n h le = absurd (omega arith)
decimal_enough (suc r) (suc m) n h le =
    let fewer : n / 10 < 10 ^ suc r = omega (arith, pow-suc 10 (suc r)) in
    let same : decimal (suc m) (n / 10) ≡ decimal (suc r) (n / 10) =
      decimal_enough r m (n / 10) fewer (omega arith) in
    ap (λ (front : String). if ltb n 10 then digit n else front ++ digit (n % 10)) same

unfoldable pub to_string : ℕ → String
unfolding decimal
to_string n = decimal 10 n
