-- ===== src/Certificate/Thresholds.antt =====
-- The warning thresholds of internal/certificate/service.go: how they are sorted, and which one is
-- taken as crossed.
use pulseboard.Common.{
  Bool, true, false, not, ◌&&◌, ◌||◌, Option, none, some, List, [], ◌∷◌, ◌≡◌, refl, sym, ◌∙◌, arith,
  any, all, contains, if◌then◌else◌, Bool-cases, inl, inr, ◌==◌, ==→≡,
}
use mathlib.Core.Path.{subst}
use pulseboard.Common.Int.{ℤ, int_eq, leb_ℤ}

-- sort.Sort(sort.Reverse(sort.IntSlice(…)))
unfoldable pub insert_descending : ℤ → List ℤ → List ℤ
insert_descending t [] = t ∷ []
insert_descending t (u ∷ us) =
    let rest = insert_descending t us in if leb_ℤ u t then t ∷ u ∷ us else u ∷ rest

unfoldable pub sort_descending : List ℤ → List ℤ
unfolding insert_descending
sort_descending [] = []
sort_descending (t ∷ ts) = insert_descending t (sort_descending ts)

-- The loop keeps the last threshold that the days do not exceed; each round has a variable of its own,
-- so the pointer stays on it.
unfoldable pub last_crossed : ℤ → Option ℤ → List ℤ → Option ℤ
last_crossed days found [] = found
last_crossed days found (t ∷ ts) = last_crossed days (if leb_ℤ days t then some t else found) ts

unfoldable pub crossed_threshold : ℤ → List ℤ → Option ℤ
unfolding sort_descending last_crossed
crossed_threshold days thresholds = last_crossed days none (sort_descending thresholds)

-- From the greatest to the least.
abbrev Descending : List ℤ → Type 0
Descending [] = Unit
Descending (t ∷ ts) = (all (λ u. leb_ℤ u t) ts ≡ true) × Descending ts

all-insert_descending :
    (p : ℤ → Bool) (t : ℤ) (us : List ℤ) → all p (insert_descending t us) ≡ (p t && all p us)
unfolding insert_descending
all-insert_descending p t [] = refl
all-insert_descending p t (u ∷ us) = ground (arith, all-insert_descending p t us)

all-sort_descending : (p : ℤ → Bool) (ts : List ℤ) → all p (sort_descending ts) ≡ all p ts
unfolding sort_descending
all-sort_descending p [] = refl
all-sort_descending p (t ∷ ts) =
    ground (arith, all-insert_descending p t (sort_descending ts), all-sort_descending p ts)

-- A bound of all may be raised.
all-leb_ℤ :
    (t u : ℤ) (ts : List ℤ)
    → leb_ℤ t u ≡ true
    → all (λ v. leb_ℤ v t) ts ≡ true
    → all (λ v. leb_ℤ v u) ts ≡ true
all-leb_ℤ t u [] h a = refl
all-leb_ℤ t u (v ∷ ts) h a = ground (arith, h, a, all-leb_ℤ t u ts)

insert_descending-Descending :
    (t : ℤ) (us : List ℤ) → Descending us → Descending (insert_descending t us)
unfolding insert_descending
insert_descending-Descending t [] d = ground arith
insert_descending-Descending t (u ∷ us) (a, d) = ground (
  arith,
  a,
  d,
  all-leb_ℤ u t us,
  insert_descending-Descending t us d,
  all-insert_descending (λ v. leb_ℤ v u) t us,
)

sort_descending-Descending : (ts : List ℤ) → Descending (sort_descending ts)
unfolding sort_descending
sort_descending-Descending [] = tt
sort_descending-Descending (t ∷ ts) =
    insert_descending-Descending t (sort_descending ts) (sort_descending-Descending ts)

-- The least threshold that the days do not exceed, where there is one.
abbrev pub IsLeastCrossed : ℤ → List ℤ → Option ℤ → Type 0
IsLeastCrossed days ts none = all (λ t. not (leb_ℤ days t)) ts ≡ true
IsLeastCrossed days ts (some t) =
    (contains ts t ≡ true)
    × (leb_ℤ days t ≡ true)
    × (all (λ u. not (leb_ℤ days u) || leb_ℤ t u) ts ≡ true)

all-contains :
    (p : ℤ → Bool) (ts : List ℤ) (t : ℤ) → all p ts ≡ true → contains ts t ≡ true → p t ≡ true
all-contains p [] t a c = ground arith
all-contains p (u ∷ ts) t a c = elim (Bool-cases (u == t)) [
  | inl e ↦ subst (λ v. p v ≡ true) (==→≡ u t e) (ground (arith, a))
  | inr f ↦ all-contains p ts t (ground (arith, a)) (ground (arith, c, f))
]

contains-insert_descending :
    (t u : ℤ) (us : List ℤ) → contains (insert_descending t us) u ≡ (t == u || contains us u)
unfolding insert_descending
contains-insert_descending t u [] = ground arith
contains-insert_descending t u (v ∷ us) = ground (arith, contains-insert_descending t u us)

contains-sort_descending : (ts : List ℤ) (u : ℤ) → contains (sort_descending ts) u ≡ contains ts u
unfolding sort_descending
contains-sort_descending [] u = refl
contains-sort_descending (t ∷ ts) u =
    ground
      (arith, contains-insert_descending t u (sort_descending ts), contains-sort_descending ts u)

-- A crossed threshold further down replaces the one found.
last_crossed-found :
    (days : ℤ) (found : Option ℤ) (ts : List ℤ)
    → last_crossed days found ts
      ≡ (if any (λ t. leb_ℤ days t) ts then last_crossed days none ts else found)
unfolding last_crossed
last_crossed-found days found [] = refl
last_crossed-found days found (t ∷ ts) = ground (
  arith,
  last_crossed-found days (some t) ts,
  last_crossed-found days found ts,
  last_crossed-found days none ts,
)

none_crossed :
    (days : ℤ) (ts : List ℤ)
    → any (λ t. leb_ℤ days t) ts ≡ false
    → all (λ t. not (leb_ℤ days t)) ts ≡ true
none_crossed days [] h = refl
none_crossed days (t ∷ ts) h = ground (arith, none_crossed days ts)

none_crossed_or :
    (days f : ℤ) (ts : List ℤ)
    → any (λ t. leb_ℤ days t) ts ≡ false
    → all (λ u. not (leb_ℤ days u) || leb_ℤ f u) ts ≡ true
none_crossed_or days f [] h = refl
none_crossed_or days f (t ∷ ts) h = ground (arith, none_crossed_or days f ts)

any-all-not :
    (days : ℤ) (ts : List ℤ)
    → all (λ t. not (leb_ℤ days t)) ts ≡ true
    → any (λ t. leb_ℤ days t) ts ≡ false
any-all-not days [] h = refl
any-all-not days (t ∷ ts) h = ground (arith, h, any-all-not days ts)

IsLeastCrossed-cons :
    (days t : ℤ) (ts : List ℤ) (o : Option ℤ)
    → all (λ u. leb_ℤ u t) ts ≡ true
    → any (λ u. leb_ℤ days u) ts ≡ true
    → IsLeastCrossed days ts o
    → IsLeastCrossed days (t ∷ ts) o
IsLeastCrossed-cons days t ts none a c h = ground (arith, any-all-not days ts h, c)
IsLeastCrossed-cons days t ts (some r) a c (m, l, h) =
    (ground (arith, m), l, ground (arith, h, all-contains (λ u. leb_ℤ u t) ts r a m))

-- One more threshold that the days exceed changes nothing.
IsLeastCrossed-skip :
    (days t : ℤ) (ts : List ℤ) (o : Option ℤ)
    → leb_ℤ days t ≡ false
    → IsLeastCrossed days ts o
    → IsLeastCrossed days (t ∷ ts) o
IsLeastCrossed-skip days t ts none f h = ground (arith, f, h)
IsLeastCrossed-skip days t ts (some r) f (m, l, h) = (ground (arith, m), l, ground (arith, f, h))

leb_ℤ-refl : (t : ℤ) → leb_ℤ t t ≡ true
leb_ℤ-refl t = ground arith

IsLeastCrossed-last :
    (days t : ℤ) (ts : List ℤ)
    → leb_ℤ days t ≡ true
    → any (λ u. leb_ℤ days u) ts ≡ false
    → IsLeastCrossed days (t ∷ ts) (some t)
IsLeastCrossed-last days t ts c e =
    (ground arith, c, ground (arith, leb_ℤ-refl t, none_crossed_or days t ts e))

last_crossed-IsLeastCrossed :
    (days : ℤ) (ts : List ℤ) → Descending ts → IsLeastCrossed days ts (last_crossed days none ts)
unfolding last_crossed
last_crossed-IsLeastCrossed days [] d = refl
last_crossed-IsLeastCrossed days (t ∷ ts) (a, d) = elim (Bool-cases (leb_ℤ days t)) [
  | inl c ↦ elim (Bool-cases (any (λ u. leb_ℤ days u) ts)) [
    | inl e ↦
        simp (c, last_crossed-found days (some t) ts, e)
          (IsLeastCrossed-cons days t ts (last_crossed days none ts) a e
            (last_crossed-IsLeastCrossed days ts d))
    | inr e ↦
        subst (IsLeastCrossed days (t ∷ ts)) {x = some t}
          (sym (simp (c, last_crossed-found days (some t) ts, e)))
          (IsLeastCrossed-last days t ts c e)
  ]
  | inr f ↦ simp f (
      IsLeastCrossed-skip days t ts (last_crossed days none ts) f
        (last_crossed-IsLeastCrossed days ts d))
]

IsLeastCrossed-sort_descending :
    (days : ℤ) (ts : List ℤ) (o : Option ℤ)
    → IsLeastCrossed days (sort_descending ts) o
    → IsLeastCrossed days ts o
IsLeastCrossed-sort_descending days ts none h =
    sym (all-sort_descending (λ t. not (leb_ℤ days t)) ts) ∙ h
IsLeastCrossed-sort_descending days ts (some t) (m, l, h) = (
  sym (contains-sort_descending ts t) ∙ m,
  l,
  sym (all-sort_descending (λ u. not (leb_ℤ days u) || leb_ℤ t u) ts) ∙ h,
)

-- The threshold taken as crossed is one of the monitor's thresholds that the days left do not
-- exceed, and no lower threshold of the monitor is such; none is taken only if the days left exceed
-- every threshold.
pub crossed_threshold-IsLeastCrossed :
    (days : ℤ) (ts : List ℤ) → IsLeastCrossed days ts (crossed_threshold days ts)
unfolding crossed_threshold
crossed_threshold-IsLeastCrossed days ts =
    IsLeastCrossed-sort_descending days ts (last_crossed days none (sort_descending ts))
      (last_crossed-IsLeastCrossed days (sort_descending ts) (sort_descending-Descending ts))
