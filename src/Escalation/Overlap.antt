-- ===== src/Escalation/Overlap.antt =====
-- DetectOverlap of internal/alert/escalation/overlap.go: the policies that share alerts and channels
-- with a candidate. The text that describes a warning is left out.
use pulseboard.Common.{
  String, string_eq, Bool, true, false, not, List, [], ◌∷◌, ◌++◌, ◌≡◌, ◌&&◌, arith, ◌==◌, ==→≡,
  ==_refl, contains, distinct, if◌then◌else◌, Bool-cases, inl, inr,
}
use pulseboard.Escalation.Model.{Level, Policy}
use pulseboard.Escalation.Filters.{filters_intersect}

-- The channels of all levels, in order.
abbrev pub all_channels : List Level → List String
all_channels [] = []
all_channels (l ∷ ls) = l.channel_ids ++ all_channels ls

-- The loop over the channels of `b`, with the set of those already seen.
unfoldable pub shared_from : List String → List String → List String → List String
shared_from chans seen [] = []
shared_from chans seen (id ∷ ids) =
    let added = shared_from chans (id ∷ seen) ids in
    let skipped = shared_from chans seen ids in
    if contains chans id && not (contains seen id) then id ∷ added else skipped

unfoldable pub shared_channels : Policy → Policy → List String
unfolding shared_from
shared_channels a b = shared_from (all_channels a.levels) [] (all_channels b.levels)

pub record OverlapWarning : Type 0 where
  pub policy_id : String
  pub policy_name : String
  pub shared_channels : List String

abbrev pub is_empty : List String → Bool
is_empty [] = true
is_empty (x ∷ xs) = false

unfoldable pub detect_overlap : Policy → List Policy → List OverlapWarning
unfolding filters_intersect shared_channels
detect_overlap candidate [] = []
detect_overlap candidate (p ∷ existing) =
    let rest = detect_overlap candidate existing in
    let shared = shared_channels candidate p in
    if not (candidate.id == "") && p.id == candidate.id
    then rest
    else if not (filters_intersect candidate.filters p.filters)
    then rest
    else if is_empty shared
    then rest
    else record { policy_id = p.id; policy_name = p.name; shared_channels = shared } ∷ rest

shared_from-contains :
    (chans seen ids : List String) (x : String)
    → contains (shared_from chans seen ids) x
      ≡ (contains chans x && (contains ids x && not (contains seen x)))
unfolding shared_from
shared_from-contains chans seen [] x = ground arith
shared_from-contains chans seen (id ∷ ids) x = elim (Bool-cases (id == x)) [
  | inl t ↦ rw (==→≡ id x t) (
      ground (
        arith,
        shared_from-contains chans (x ∷ seen) ids x,
        shared_from-contains chans seen ids x,
        ==_refl x,
      ))
  | inr f ↦
      ground
        (arith, shared_from-contains chans (id ∷ seen) ids x, shared_from-contains chans seen ids x)
]

shared_from-distinct : (chans seen ids : List String) → distinct (shared_from chans seen ids) ≡ true
unfolding shared_from
shared_from-distinct chans seen [] = ground arith
shared_from-distinct chans seen (id ∷ ids) = ground (
  arith,
  shared_from-distinct chans (id ∷ seen) ids,
  shared_from-distinct chans seen ids,
  shared_from-contains chans (id ∷ seen) ids id,
  ==_refl id,
)

-- The shared channels of two policies are those that stand in a level of both, none of them twice.
pub shared_channels_lem :
    (a b : Policy)
    → ((x : String)
        → contains (shared_channels a b) x
          ≡ (contains (all_channels a.levels) x && contains (all_channels b.levels) x))
      × (distinct (shared_channels a b) ≡ true)
unfolding shared_channels
shared_channels_lem a b = (
  λ x. ground (arith, shared_from-contains (all_channels a.levels) [] (all_channels b.levels) x),
  shared_from-distinct (all_channels a.levels) [] (all_channels b.levels),
)
