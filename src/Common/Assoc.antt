-- ===== src/Common/Assoc.antt =====
-- A Go map as an association list over a comparable key.
use mathlib.Core.Path.{◌≡◌}
use mathlib.Core.Logic.{inl, inr}
use mathlib.Core.Bool.{Bool}
use mathlib.Core.List.{List, [], ◌∷◌}
use mathlib.Core.Option.{Option, none, some}
use native.Mathlib.Omega.{arith}
use pulseboard.Common.Tests.{Comparable, ◌==◌, ==_refl, ==→≡, Bool-cases, if◌then◌else◌}

module _ {ℓ κ} {K : Type ℓ} {V : Type κ} ⦃e : Comparable K⦄ where
  -- v, ok := m[k]
  unfoldable pub lookup : K → List (K × V) → Option V
  lookup k [] = none
  lookup k (entry ∷ m) = let other = lookup k m in if entry.0 == k then some entry.1 else other

  -- m[k] = v
  unfoldable pub insert : K → V → List (K × V) → List (K × V)
  insert k v [] = (k, v) ∷ []
  insert k v (entry ∷ m) =
      let rest = insert k v m in if entry.0 == k then (k, v) ∷ m else entry ∷ rest

  -- delete(m, k)
  unfoldable pub delete : K → List (K × V) → List (K × V)
  delete k [] = []
  delete k (entry ∷ m) = let rest = delete k m in if entry.0 == k then rest else entry ∷ rest

  -- for k, v := range m { if p(k) { out = append(out, v); delete(m, k) } }
  unfoldable pub take_where : (K → Bool) → List (K × V) → List (K × V) × List V
  take_where p [] = ([], [])
  take_where p ((j, v) ∷ m) =
      let (kept, taken) = take_where p m in
      if p j then (kept, v ∷ taken) else ((j, v) ∷ kept, taken)

  pub lookup-take_where :
      (p : K → Bool) (k : K) (m : List (K × V))
      → lookup k (take_where p m).0 ≡ (if p k then none else lookup k m)
  unfolding take_where lookup
  lookup-take_where p k [] = ground arith
  lookup-take_where p k ((j, v) ∷ m) = elim (Bool-cases (j == k)) [
    | inl t ↦ rw (==→≡ j k t) (ground (arith, lookup-take_where p k m, ==_refl k))
    | inr f ↦ ground (arith, lookup-take_where p k m)
  ]

  pub lookup-insert :
      (key k : K) (value : V) (m : List (K × V))
      → lookup k (insert key value m) ≡ (if key == k then some value else lookup k m)
  unfolding insert lookup
  lookup-insert key k value [] = ground arith
  lookup-insert key k value ((i, w) ∷ m) =
      ground
        (arith, lookup-insert key k value m, e.same_iff i key, e.same_iff key k, e.same_iff i k)

  pub lookup-delete :
      (k j : K) (m : List (K × V)) → lookup j (delete k m) ≡ (if k == j then none else lookup j m)
  unfolding lookup delete
  lookup-delete k j [] = ground arith
  lookup-delete k j ((i, w) ∷ m) =
      ground (arith, lookup-delete k j m, e.same_iff i k, e.same_iff k j, e.same_iff i j)

  pub lookup-insert_self : (k : K) (v : V) (m : List (K × V)) → lookup k (insert k v m) ≡ some v
  lookup-insert_self k v m = simp (lookup-insert, ==_refl)

  pub lookup-delete_self : (k : K) (m : List (K × V)) → lookup k (delete k m) ≡ none
  lookup-delete_self k m = simp (lookup-delete, ==_refl)

pub ruleset map_laws = (lookup-insert, lookup-delete)
