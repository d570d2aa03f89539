-- ===== src/Prelude/HashMap/All.antt =====
-- Predicates of the entries of a map, and that its keys are distinct.
use mathlib.Core.Path.{◌≡◌, refl, subst}
use mathlib.Core.Logic.{inl, inr}
use mathlib.Core.Logic.Or
use mathlib.Core.HLevel.{⊥_prop}
use mathlib.Core.Option.{none, some}
use mathlib.Core.List.{[], ◌∷◌, map, Nodup, Nodup-cons, Nodup-nil, Mem, mem-cons, not-mem-nil}
use native.Mathlib.Omega.{arith}
use durabletask_rs.Prelude.Tests.{PartialEq, ◌==◌, Bool-cases}
use durabletask_rs.Prelude.Lists.{All}
use durabletask_rs.Prelude.HashMap.{HashMap, lookup, insert, remove, lookup-insert, lookup-remove}

module _ {K V : Type 0} ⦃e : PartialEq K⦄ (P : K × V → Type 0) where
  pub All-insert : (k : K) (v : V) (m : HashMap K V) → P (k, v) → All P m → All P (insert k v m)
  unfolding insert
  All-insert k v [] p h = (p, tt)
  All-insert k v ((j, w) ∷ m) p h = elim (Bool-cases (j == k)) [
    | inl same ↦ rw same (p, h.1)
    | inr other ↦ rw other (h.0, All-insert k v m p h.1)
  ]

  pub All-remove : (k : K) (m : HashMap K V) → All P m → All P (remove k m)
  unfolding remove
  All-remove k [] h = tt
  All-remove k ((j, w) ∷ m) h = elim (Bool-cases (j == k)) [
    | inl same ↦ rw same (All-remove k m h.1)
    | inr other ↦ rw other (h.0, All-remove k m h.1)
  ]

  pub All-lookup : (k : K) (v : V) (m : HashMap K V) → All P m → lookup k m ≡ some v → P (k, v)
  unfolding lookup
  All-lookup k v [] h p = cc
  All-lookup k v ((j, w) ∷ m) h p = elim (Bool-cases (j == k)) [
    | inl same ↦
        let val : w ≡ v = ground arith in
        subst (λ (x : K). P (x, v)) ((e.eq_iff j k).0 same) (subst (λ (x : V). P (j, x)) val h.0)
    | inr other ↦ All-lookup k v m h.1 (ground arith)
  ]

module _ {K V : Type 0} ⦃e : PartialEq K⦄ where
  -- No key stands twice.
  abbrev pub IsDistinct : HashMap K V → Type 0
  IsDistinct [] = Unit {0}
  IsDistinct ((k, v) ∷ m) = (lookup k m ≡ none) × IsDistinct m

  pub insert-IsDistinct :
      (k : K) (v : V) (m : HashMap K V) → IsDistinct m → IsDistinct (insert k v m)
  unfolding insert lookup
  insert-IsDistinct k v [] h = (refl, tt)
  insert-IsDistinct k v ((j, w) ∷ m) h = elim (Bool-cases (j == k)) [
    | inl same ↦ rw same (rw ((e.eq_iff j k).0 same) at h.0, h.1)
    | inr other ↦ rw other (
      rw (lookup-insert k j v m) (ground (arith, e.eq_iff j k, e.eq_iff k j)),
      insert-IsDistinct k v m h.1,
    )
  ]

  pub remove-IsDistinct : (k : K) (m : HashMap K V) → IsDistinct m → IsDistinct (remove k m)
  unfolding remove
  remove-IsDistinct k [] h = tt
  remove-IsDistinct k ((j, w) ∷ m) h = elim (Bool-cases (j == k)) [
    | inl same ↦ rw same (remove-IsDistinct k m h.1)
    | inr other ↦ rw other (
      rw (lookup-remove k j m) (ground (arith, e.eq_iff j k, e.eq_iff k j)),
      remove-IsDistinct k m h.1,
    )
  ]

  absent_not_mem :
      (k : K) (m : HashMap K V) → lookup k m ≡ none → ¬ Mem k (map (λ (x : K × V). x.0) m)
  unfolding lookup
  absent_not_mem k [] h at = not-mem-nil at
  absent_not_mem k ((j, w) ∷ m) h at =
      let here : k ≡ j → ⊥ = λ same. ground (arith, e.eq_iff j k) in
      Or.elim ⊥_prop (mem-cons.0 at) here (absent_not_mem k m (ground arith))

  pub IsDistinct-Nodup : (m : HashMap K V) → IsDistinct m → Nodup (map (λ (x : K × V). x.0) m)
  IsDistinct-Nodup [] h = Nodup-nil
  IsDistinct-Nodup ((k, v) ∷ m) h = Nodup-cons.1 (absent_not_mem k m h.0, IsDistinct-Nodup m h.1)
