-- ===== src/Swarm/CrashLoop/Reports.antt =====
-- The events that the detector returns, service by service.
use mathlib.Core.Path.{subst}
use pulseboard.Common.{
  ℕ, String, string_eq, Bool, true, false, not, ◌&&◌, ◌||◌, List, [], ◌∷◌, ◌++◌, ◌==◌, ◌≡◌, refl,
  ap, arith, Bool-cases, Option-cases, inl, inr, ==→≡, ==_refl, eq_iff, map, select,
}
use pulseboard.Common.Assoc.{lookup, insert}
use pulseboard.Alert.Model.{Event}
use pulseboard.Swarm.CrashLoop.{
  ServiceFailureState, fail, settle, Detector, or_new, record_failure, check_recoveries,
}
use pulseboard.Swarm.CrashLoop.Window.{notice_of, detected, recovered}

abbrev pub names : String → Event → Bool
names id evt = evt.entity_name == id

abbrev has_entry : String → Detector → Bool
has_entry id [] = false
has_entry id ((i, st) ∷ d) = i == id || has_entry id d

-- As in a Go map, no service has two entries.
abbrev pub one_entry_each : Detector → Bool
one_entry_each [] = true
one_entry_each ((i, st) ∷ d) = not (has_entry i d) && one_entry_each d

has_entry-insert :
    (k i : String) (st : ServiceFailureState) (d : Detector)
    → has_entry i (insert k st d) ≡ (k == i || has_entry i d)
unfolding insert
has_entry-insert k i st [] = ground arith
has_entry-insert k i st ((j, old) ∷ d) =
    ground (arith, has_entry-insert k i st d, eq_iff j k, eq_iff k i, eq_iff j i)

pub one_entry_each-insert :
    (k : String) (st : ServiceFailureState) (d : Detector)
    → one_entry_each d ≡ true
    → one_entry_each (insert k st d) ≡ true
unfolding insert
one_entry_each-insert k st [] h = refl
one_entry_each-insert k st ((j, old) ∷ d) h = elim (Bool-cases (j == k)) [
  | inl e ↦ simp e (subst (λ i. (not (has_entry i d) && one_entry_each d) ≡ true) (==→≡ j k e) h)
  | inr f ↦
      ground (
        arith,
        f,
        h,
        has_entry-insert k j st d,
        one_entry_each-insert k st d,
        eq_iff j k,
        eq_iff k j,
      )
]

has_entry-check_recoveries :
    (text : String → ℕ → String) (now : ℕ) (i : String) (d : Detector)
    → has_entry i (check_recoveries text now d).0 ≡ has_entry i d
unfolding check_recoveries
has_entry-check_recoveries text now i [] = refl
has_entry-check_recoveries text now i ((j, st) ∷ d) =
    ground (arith, has_entry-check_recoveries text now i d)

pub one_entry_each-check_recoveries :
    (text : String → ℕ → String) (now : ℕ) (d : Detector)
    → one_entry_each (check_recoveries text now d).0 ≡ one_entry_each d
unfolding check_recoveries
one_entry_each-check_recoveries text now [] = refl
one_entry_each-check_recoveries text now ((j, st) ∷ d) =
    ground
      (arith, has_entry-check_recoveries text now j d, one_entry_each-check_recoveries text now d)

-- A service without an entry has no recovery.
select-check_recoveries_none :
    (text : String → ℕ → String) (now : ℕ) (id : String) (d : Detector)
    → has_entry id d ≡ false
    → select (names id) (check_recoveries text now d).1 ≡ []
unfolding check_recoveries
select-check_recoveries_none text now id [] h = refl
select-check_recoveries_none text now id ((j, st) ∷ d) h =
    ground (arith, h, select-check_recoveries_none text now id d)

-- The recovery of a service, as its own entry gives it.
pub select-check_recoveries :
    (text : String → ℕ → String) (now : ℕ) (id : String) (d : Detector)
    → one_entry_each d ≡ true
    → map notice_of (select (names id) (check_recoveries text now d).1)
      ≡ recovered id now (settle now (or_new (lookup id d))).1
unfolding check_recoveries lookup settle
select-check_recoveries text now id [] h = refl
select-check_recoveries text now id ((j, st) ∷ d) h = elim (Bool-cases (j == id)) [
  | inl e ↦
      subst
        (λ k.
          map notice_of (select (names k) (check_recoveries text now ((j, st) ∷ d)).1)
          ≡ recovered k now (settle now (or_new (lookup k ((j, st) ∷ d)))).1)
        (==→≡ j id e)
        (ground
          (arith, ==_refl j, h, select-check_recoveries_none text now j d (ground (arith, h))))
  | inr f ↦ ground (arith, f, select-check_recoveries text now id d (ground (arith, h)))
]

pub map-append :
    (xs ys : List Event) → map notice_of (xs ++ ys) ≡ map notice_of xs ++ map notice_of ys
map-append [] ys = refl
map-append (x ∷ xs) ys = ap (λ l. notice_of x ∷ l) (map-append xs ys)

-- The events of a failure tell what its count does.
pub notice_of-record_failure :
    (text : String → ℕ → String) (now : ℕ) (i name : String) (d : Detector)
    → map notice_of (record_failure text now i name d).1
      ≡ detected text name now (fail now (or_new (lookup i d))).1
unfolding record_failure
notice_of-record_failure text now i name d =
    elim (Option-cases (fail now (or_new (lookup i d))).1) [
      | inl e ↦ simp e refl
      | inr (n, e) ↦ simp e refl
    ]
