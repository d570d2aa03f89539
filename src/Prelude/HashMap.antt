-- ===== src/Prelude/HashMap.antt =====
-- std's `HashMap` and dashmap's `DashMap` as the program uses them: keyed access, and the values in
-- some order. An entry list holds a key at most once, since `insert` replaces.
pub mod All
use mathlib.Core.Path.{◌≡◌, refl}
use mathlib.Core.Bool.{false}
use mathlib.Core.Option.{Option, none, some}
use mathlib.Core.List.{List, [], ◌∷◌, map}
use native.Mathlib.Omega.{arith}
use durabletask_rs.Prelude.Tests.{PartialEq, ◌==◌, if◌then◌else◌}

abbrev pub HashMap {ℓ κ} : Type ℓ → Type κ → Type (ℓ ⊔ κ)
HashMap K V = List (K × V)

module _ {ℓ κ} {K : Type ℓ} {V : Type κ} ⦃e : PartialEq K⦄ where
  unfoldable pub lookup : K → HashMap K V → Option V
  lookup key [] = none
  lookup key ((other, val) ∷ entries) = if other == key then some val else lookup key entries

  unfoldable pub remove : K → HashMap K V → HashMap K V
  remove key [] = []
  remove key ((other, val) ∷ entries) =
      let rest = remove key entries in if other == key then rest else (other, val) ∷ rest

  unfoldable pub insert : K → V → HashMap K V → HashMap K V
  insert key val [] = (key, val) ∷ []
  insert key val ((other, old) ∷ entries) =
      if other == key then (key, val) ∷ entries else (other, old) ∷ insert key val entries

  unfoldable pub values : HashMap K V → List V
  values m = map (λ (entry : K × V). entry.1) m

  pub lookup-remove :
      (k j : K) (m : HashMap K V) → lookup j (remove k m) ≡ (if k == j then none else lookup j m)
  unfolding lookup remove
  lookup-remove k j [] = ground arith
  lookup-remove k j ((i, w) ∷ m) =
      ground (arith, e.eq_iff k j, e.eq_iff i k, e.eq_iff i j, lookup-remove k j m)

  pub lookup-insert :
      (key asked : K) (val : V) (entries : HashMap K V)
      → lookup asked (insert key val entries)
        ≡ (if key == asked then some val else lookup asked entries)
  unfolding insert lookup
  lookup-insert key asked val [] = refl
  lookup-insert key asked val ((other, old) ∷ entries) = ground (
    e.eq_iff other asked,
    e.eq_iff other key,
    e.eq_iff key asked,
    lookup-insert key asked val entries,
    arith,
  )

  pub lookup-insert_self : (k : K) (v : V) (m : HashMap K V) → lookup k (insert k v m) ≡ some v
  lookup-insert_self k v m = rw (lookup-insert k k v m, (e.eq_iff k k).1 refl) refl

  pub lookup-remove_self : (k : K) (m : HashMap K V) → lookup k (remove k m) ≡ none
  lookup-remove_self k m = rw (lookup-remove k k m, (e.eq_iff k k).1 refl) refl

  -- At a map with one entry.
  pub lookup_only : (k : K) (v : V) → lookup k ((k, v) ∷ []) ≡ some v
  unfolding lookup
  lookup_only k v = rw ((e.eq_iff k k).1 refl) refl

  pub remove_only : (k : K) (v : V) → remove k ((k, v) ∷ []) ≡ []
  unfolding remove
  remove_only k v = rw ((e.eq_iff k k).1 refl) refl

  pub lookup_other : (j k : K) (v : V) → (k == j) ≡ false → lookup j ((k, v) ∷ []) ≡ none
  unfolding lookup
  lookup_other j k v h = rw h refl

  pub remove_other : (j k : K) (v : V) → (k == j) ≡ false → remove j ((k, v) ∷ []) ≡ (k, v) ∷ []
  unfolding remove
  remove_other j k v h = rw h refl
