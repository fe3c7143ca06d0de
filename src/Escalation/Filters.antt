-- ===== src/Escalation/Filters.antt =====
-- Which alerts a policy takes (matchPolicyFilters of internal/alert/escalation/runner.go), and which
-- policies are said to overlap (internal/alert/escalation/overlap.go).
use pulseboard.Common.{
  string_eq, Bool, true, false, List, [], ◌∷◌, ◌≡◌, ◌&&◌, ◌||◌, arith, Comparable, ◌==◌, ==→≡,
  contains, Bool-cases, inl, inr,
}
use pulseboard.Alert.Model.{Alert}
use pulseboard.Escalation.Model.{scope_eq, Filters, Policy}

-- A filter that is empty matches everything.
abbrev pub matches_filter {ℓ} : {A : Type ℓ} ⦃e : Comparable A⦄ → List A → A → Bool
matches_filter [] a = true
matches_filter (x ∷ xs) a = contains (x ∷ xs) a

unfoldable pub match_policy_filters : Alert → Policy → Bool
match_policy_filters a p =
    matches_filter p.filters.severities a.severity
    && matches_filter p.filters.scopes (record { kind = a.entity_type; ref_id = a.entity_id })

-- The loop of setsIntersect, and the two of scopeSetsIntersect.
abbrev pub common_element {ℓ} : {A : Type ℓ} ⦃e : Comparable A⦄ → List A → List A → Bool
common_element [] ys = false
common_element (x ∷ xs) ys = contains ys x || common_element xs ys

abbrev pub sets_intersect {ℓ} : {A : Type ℓ} ⦃e : Comparable A⦄ → List A → List A → Bool
sets_intersect [] ys = true
sets_intersect (x ∷ xs) [] = true
sets_intersect (x ∷ xs) (y ∷ ys) = common_element (x ∷ xs) (y ∷ ys)

unfoldable pub filters_intersect : Filters → Filters → Bool
filters_intersect a b =
    sets_intersect a.severities b.severities
    && (sets_intersect a.scopes b.scopes && sets_intersect a.tags b.tags)

module _ {ℓ} {A : Type ℓ} ⦃e : Comparable A⦄ where
  common_element-contains :
      (xs ys : List A) (a : A)
      → contains xs a ≡ true
      → contains ys a ≡ true
      → common_element xs ys ≡ true
  common_element-contains [] ys a h k = ground arith
  common_element-contains (x ∷ xs) ys a h k = elim (Bool-cases (x == a)) [
    | inl t ↦ rw (==→≡ x a t) (ground (arith, k))
    | inr f ↦ ground (arith, common_element-contains xs ys a)
  ]

  -- What passes both filters is in their intersection.
  pub sets_intersect-matches_filter :
      (xs ys : List A) (a : A)
      → matches_filter xs a ≡ true
      → matches_filter ys a ≡ true
      → sets_intersect xs ys ≡ true
  sets_intersect-matches_filter [] ys a h k = ground arith
  sets_intersect-matches_filter (x ∷ xs) [] a h k = ground arith
  sets_intersect-matches_filter (x ∷ xs) (y ∷ ys) a h k =
      common_element-contains (x ∷ xs) (y ∷ ys) a h k

-- If an alert passes the filters of two policies, the filters are found to intersect exactly if
-- their tags do.
pub filters_intersect-match_policy_filters :
    (a : Alert) (p q : Policy)
    → match_policy_filters a p ≡ true
    → match_policy_filters a q ≡ true
    → filters_intersect p.filters q.filters ≡ sets_intersect p.filters.tags q.filters.tags
unfolding match_policy_filters filters_intersect
filters_intersect-match_policy_filters a p q h k = ground (
  arith,
  sets_intersect-matches_filter p.filters.severities q.filters.severities a.severity,
  sets_intersect-matches_filter p.filters.scopes q.filters.scopes
      (record { kind = a.entity_type; ref_id = a.entity_id }),
)
