-- ===== src/Environment.antt =====
-- crates/sdk/src/environment.rs: a map from types to values, for the activities' shared data.
-- A `TypeId` is a number, `Value t` the type that it stands for, and `Box<dyn Any>` is a value beside
-- the `TypeId` of its type.
use native.Mathlib.Nat.{ℕ_set}
use std.Path.{subst_refl}
use durabletask_rs.Prelude.{
  ℕ, ◌≡◌, ◌≢◌, refl, ap, ◌∙◌, subst, true, false, Option, none, some, ◌==◌, nat_eq, Bool-cases, ◌⊎◌,
  inl, inr, arith,
}
use durabletask_rs.Prelude.HashMap.{HashMap, lookup, insert, lookup-insert, lookup-insert_self}

module _ (Value : ℕ → Type 0) where
  abbrev pub Boxed : Type 0
  Boxed = (t : ℕ) × Value t

  pub record Environment : Type 0 where
    pub entries : HashMap ℕ Boxed

  abbrev from_decision :
      {t u : ℕ} → Value u → (((u == t) ≡ true) ⊎ ((u == t) ≡ false)) → Option (Value t)
  from_decision {t} {u} val (inl same) = some (subst Value ((nat_eq.eq_iff u t).0 same) val)
  from_decision val (inr other) = none

  -- `boxed.downcast::<T>().ok()`, or `downcast_ref`
  unfoldable pub downcast : (t : ℕ) → Boxed → Option (Value t)
  downcast t (u, val) = from_decision val (Bool-cases (u == t))

  abbrev pub and_downcast : (t : ℕ) → Option Boxed → Option (Value t)
  and_downcast t none = none
  and_downcast t (some boxed) = downcast t boxed

  -- `Environment::insert`: the value that is replaced, and the environment.
  unfoldable pub insert_value : (t : ℕ) → Value t → Environment → Option (Value t) × Environment
  unfolding insert lookup downcast
  insert_value t val env =
      (and_downcast t (lookup t env.entries), record { entries = insert t (t, val) env.entries })

  -- `Environment::get`
  unfoldable pub get : (t : ℕ) → Environment → Option (Value t)
  unfolding lookup downcast
  get t env = and_downcast t (lookup t env.entries)

  subst_self : (t : ℕ) (p : t ≡ t) (val : Value t) → subst Value p val ≡ val
  subst_self t p val =
      ap (λ (q : t ≡ t). subst Value q val) (ℕ_set t t p refl) ∙ subst_refl Value val

  downcast_self : (t : ℕ) (val : Value t) → downcast t (t, val) ≡ some val
  unfolding downcast
  downcast_self t val = go (Bool-cases (t == t))
    where
      go : (d : ((t == t) ≡ true) ⊎ ((t == t) ≡ false)) → from_decision val d ≡ some val
      go (inl same) = ap some (subst_self t ((nat_eq.eq_iff t t).0 same) val)
      go (inr other) = absurd (ground arith)

  other_type : (t u : ℕ) → t ≢ u → (t == u) ≡ false
  other_type t u differs = ground (arith, differs)

  -- A value that is inserted is what `get` finds at its type, whatever stood there before; the values of
  -- other types stay, and `insert` hands back what `get` found.
  pub get-insert_value :
      (t : ℕ) (val : Value t) (env : Environment)
      → (get t (insert_value t val env).1 ≡ some val)
        × ((u : ℕ) → t ≢ u → get u (insert_value t val env).1 ≡ get u env)
        × ((insert_value t val env).0 ≡ get t env)
  unfolding get insert_value
  get-insert_value t val env = (
    rw (lookup-insert_self t (t, val) env.entries) (downcast_self t val),
    λ u differs. rw (lookup-insert t u (t, val) env.entries, other_type t u differs) refl,
    refl,
  )
