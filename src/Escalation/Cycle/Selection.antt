-- ===== src/Escalation/Cycle/Selection.antt =====
-- What the selection of the due runs returns, and how it stands to the table.
use pulseboard.Common.{
  ℕ, String, string_eq, Bool, true, false, ◌&&◌, Option, none, some, List, [], ◌∷◌, ◌≡◌, refl, ◌∙◌,
  ◌==◌, ==→≡, contains, distinct, arith, if◌then◌else◌, Bool-cases, inl, inr, eq_iff, select, All,
}
use pulseboard.Common.Assoc.{lookup}
use pulseboard.Escalation.Model.{Run}
use pulseboard.Escalation.Store.{
  State, rows, run_ids, is_due, insert_by_time, sort_by_time, select_due_runs,
}

abbrev pub StandsAt : String × Run → Type 0
StandsAt entry = entry.1.id ≡ entry.0

-- Each run stands under its id, and no id stands twice: the id is the primary key.
pub record IsTable (s : State) : Type 0 where
  pub keyed : All StandsAt s.runs
  pub unique : distinct (run_ids s.runs) ≡ true

abbrev pub find_run : String → List Run → Option Run
find_run id [] = none
find_run id (r ∷ rs) = if r.id == id then some r else find_run id rs

abbrev pub is_none : Option Run → Bool
is_none none = true
is_none (some r) = false

abbrev pub distinct_runs : List Run → Bool
distinct_runs [] = true
distinct_runs (r ∷ rs) = is_none (find_run r.id rs) && distinct_runs rs

abbrev pub when : (Run → Bool) → Option Run → Option Run
when p none = none
when p (some r) = if p r then some r else none

lookup-absent :
    (id : String) (m : List (String × Run)) → contains (run_ids m) id ≡ false → lookup id m ≡ none
unfolding lookup
lookup-absent id [] h = refl
lookup-absent id ((k, r) ∷ m) h = ground (arith, lookup-absent id m)

pub find_run-select :
    (p : Run → Bool) (id : String) (m : List (String × Run))
    → All StandsAt m
    → distinct (run_ids m) ≡ true
    → find_run id (select p (rows m)) ≡ when p (lookup id m)
unfolding lookup
find_run-select p id [] k u = refl
find_run-select p id ((i, r) ∷ m) (e, k) u = elim (Bool-cases (i == id)) [
  | inl t ↦ ground (arith, find_run-select p id m k, lookup-absent id m, ==→≡ i id t)
  | inr f ↦ ground (arith, find_run-select p id m k)
]

find_run-insert_by_time :
    (id : String) (r : Run) (xs : List Run)
    → find_run r.id xs ≡ none
    → find_run id (insert_by_time r xs) ≡ (if r.id == id then some r else find_run id xs)
unfolding insert_by_time
find_run-insert_by_time id r [] h = refl
find_run-insert_by_time id r (x ∷ xs) h = elim (Bool-cases (r.id == id)) [
  | inl t ↦ ground (arith, find_run-insert_by_time id r xs, ==→≡ r.id id t)
  | inr f ↦ ground (arith, find_run-insert_by_time id r xs)
]

pub distinct_runs-select :
    (p : Run → Bool) (m : List (String × Run))
    → All StandsAt m
    → distinct (run_ids m) ≡ true
    → distinct_runs (select p (rows m)) ≡ true
distinct_runs-select p [] k u = refl
distinct_runs-select p ((i, r) ∷ m) (e, k) u =
    ground (arith, distinct_runs-select p m k, find_run-select p r.id m k, lookup-absent r.id m)

distinct_runs-insert_by_time :
    (r : Run) (xs : List Run)
    → distinct_runs xs ≡ true
    → find_run r.id xs ≡ none
    → distinct_runs (insert_by_time r xs) ≡ true
unfolding insert_by_time
distinct_runs-insert_by_time r [] h k = refl
distinct_runs-insert_by_time r (x ∷ xs) h k = ground (
  arith,
  distinct_runs-insert_by_time r xs,
  find_run-insert_by_time x.id r xs,
  eq_iff r.id x.id,
  eq_iff x.id r.id,
)

absent : (o : Option Run) → is_none o ≡ true → o ≡ none
absent none h = refl
absent (some r) h = ground arith

find_run-sort_by_time :
    (id : String) (rs : List Run)
    → distinct_runs rs ≡ true
    → find_run id (sort_by_time rs) ≡ find_run id rs
unfolding sort_by_time
find_run-sort_by_time id [] h = refl
find_run-sort_by_time id (r ∷ rs) h = ground (
  arith,
  find_run-insert_by_time id r (sort_by_time rs),
  find_run-sort_by_time id rs,
  find_run-sort_by_time r.id rs,
  absent (find_run r.id rs),
)

distinct_runs-sort_by_time :
    (rs : List Run) → distinct_runs rs ≡ true → distinct_runs (sort_by_time rs) ≡ true
unfolding sort_by_time
distinct_runs-sort_by_time [] h = refl
distinct_runs-sort_by_time (r ∷ rs) h = ground (
  arith,
  distinct_runs-sort_by_time rs,
  distinct_runs-insert_by_time r (sort_by_time rs),
  find_run-sort_by_time r.id rs,
  absent (find_run r.id rs),
)

-- The selection finds a run exactly if the table holds it and it is due.
pub find_run-select_due_runs :
    (now : ℕ) (id : String) (s : State)
    → IsTable s
    → find_run id (select_due_runs now s) ≡ when (is_due now) (lookup id s.runs)
unfolding select_due_runs
find_run-select_due_runs now id s t =
    find_run-sort_by_time id (select (is_due now) (rows s.runs))
      (distinct_runs-select (is_due now) s.runs t.keyed t.unique)
    ∙ find_run-select (is_due now) id s.runs t.keyed t.unique

pub distinct_runs-select_due_runs :
    (now : ℕ) (s : State) → IsTable s → distinct_runs (select_due_runs now s) ≡ true
unfolding select_due_runs
distinct_runs-select_due_runs now s t =
    distinct_runs-sort_by_time (select (is_due now) (rows s.runs))
      (distinct_runs-select (is_due now) s.runs t.keyed t.unique)
