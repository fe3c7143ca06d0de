-- ===== src/Escalation/Starts.antt =====
-- Which runs the creation of an alert starts: one for each policy that takes the alert and has none.
use pulseboard.Common.{
  ℕ, suc, ◌+◌, String, string_eq, Bool, true, false, not, ◌&&◌, ◌||◌, Option, none, some, List, [],
  ◌∷◌, ◌≡◌, refl, ap, ◌==◌, ==→≡, arith, if◌then◌else◌, Bool-cases, inl, inr, contains, distinct,
  eqb, select, get_elem?,
}
use pulseboard.Common.Assoc.{insert}
use pulseboard.Alert.Model.{Alert}
use pulseboard.Escalation.Model.{Level, Policy, Run}
use pulseboard.Escalation.Filters.{match_policy_filters}
use pulseboard.Escalation.Store.{
  State, RunnerDeps, rows, run_ids, is_open_for, select_active_runs_by_alert,
}
use pulseboard.Escalation.Hooks.{covered, new_run, start_run, start_runs, on_alert_created}

abbrev of_policy : String → Option String → Bool
of_policy q none = false
of_policy q (some id) = id == q

-- The open runs of a policy for an alert.
abbrev pub open_runs_for : String → String → List Run → ℕ
open_runs_for q b [] = 0
open_runs_for q b (r ∷ rs) =
    let rest = open_runs_for q b rs in
    if is_open_for b r && of_policy q r.policy_id then suc rest else rest

abbrev pub is_given {ℓ} : {A : Type ℓ} → Option A → Bool
is_given none = false
is_given (some x) = true

-- The policy takes the alert, has a level, and can be printed.
abbrev pub takes : RunnerDeps → Alert → Policy → Bool
takes d a p =
    match_policy_filters a p && (is_given (get_elem? p.levels 0) && is_given (d.marshal p))

abbrev pub taken : RunnerDeps → Alert → String → List Policy → Bool
taken d a q [] = false
taken d a q (p ∷ ps) = (p.id == q && takes d a p) || taken d a q ps

abbrev pub policy_ids : List Policy → List String
policy_ids [] = []
policy_ids (p ∷ ps) = p.id ∷ policy_ids ps

-- uid.New returns an id that is not in use, and the store takes every new run.
pub record StartsRuns (d : RunnerDeps) : Type 0 where
  pub fresh : (used : List String) → contains used (d.new_id used) ≡ false
  pub inserts : (r : Run) → d.insert_run_fails r ≡ false

open_runs_for-insert :
    (q b k : String) (v : Run) (m : List (String × Run))
    → contains (run_ids m) k ≡ false
    → open_runs_for q b (rows (insert k v m))
      ≡ open_runs_for q b (rows m) + (if is_open_for b v && of_policy q v.policy_id then 1 else 0)
unfolding insert
open_runs_for-insert q b k v [] h = ground arith
open_runs_for-insert q b k v ((i, r) ∷ m) h = ground (arith, open_runs_for-insert q b k v m)

covered-open_runs_for :
    (q b : String) (rs : List Run)
    → contains (covered (select (is_open_for b) rs)) q ≡ not (eqb (open_runs_for q b rs) 0)
covered-open_runs_for q b [] = refl
covered-open_runs_for q b (r ∷ rs) = ground (arith, covered-open_runs_for q b rs)

taken-absent :
    (d : RunnerDeps) (a : Alert) (q : String) (ps : List Policy)
    → contains (policy_ids ps) q ≡ false
    → taken d a q ps ≡ false
taken-absent d a q [] h = refl
taken-absent d a q (p ∷ ps) h = ground (arith, taken-absent d a q ps)

module _ (d : RunnerDeps) (w : StartsRuns d) (a : Alert) (now : ℕ) (q b : String) where
  start_run-open_runs_for :
      (p : Policy) (l : Option Level) (j : Option String) (s : State)
      → open_runs_for q b (rows (start_run d a now p l j s).runs)
        ≡ open_runs_for q b (rows s.runs)
          + (if (a.id == b && p.id == q) && (is_given l && is_given j) then 1 else 0)
  start_run-open_runs_for p none none s = ground arith
  start_run-open_runs_for p none (some j) s = ground arith
  start_run-open_runs_for p (some l) none s = ground arith
  start_run-open_runs_for p (some l) (some j) s = ground (
    arith,
    w.inserts (new_run (d.new_id (run_ids s.runs)) j a p l now),
    open_runs_for-insert q b (d.new_id (run_ids s.runs))
        (new_run (d.new_id (run_ids s.runs)) j a p l now) s.runs (w.fresh (run_ids s.runs)),
  )

  start_runs-open_runs_for :
      (seen : List String) (ps : List Policy) (s : State)
      → distinct (policy_ids ps) ≡ true
      → open_runs_for q b (rows (start_runs d seen a now ps s).runs)
        ≡ open_runs_for q b (rows s.runs)
          + (if a.id == b && (not (contains seen q) && taken d a q ps) then 1 else 0)
  unfolding start_runs
  start_runs-open_runs_for seen [] s u = ground arith
  start_runs-open_runs_for seen (p ∷ ps) s u = elim (Bool-cases (p.id == q)) [
    | inl t ↦ ground (
      arith,
      ==→≡ p.id q t,
      taken-absent d a q ps,
      start_runs-open_runs_for seen ps s,
      start_run-open_runs_for p (get_elem? p.levels 0) (d.marshal p) s,
      start_runs-open_runs_for seen ps (start_run d a now p (get_elem? p.levels 0) (d.marshal p) s),
    )
    | inr f ↦ ground (
      arith,
      start_runs-open_runs_for seen ps s,
      start_run-open_runs_for p (get_elem? p.levels 0) (d.marshal p) s,
      start_runs-open_runs_for seen ps (start_run d a now p (get_elem? p.levels 0) (d.marshal p) s),
    )
  ]

-- If the store answers and takes the new runs, under fresh ids, then the creation of an alert that
-- has an id starts one run for each policy that takes the alert and has no open run for it, and
-- leaves the number of open runs of every other policy and alert as it was.
pub on_alert_created-open_runs_for :
    (d : RunnerDeps) (a : Alert) (now : ℕ) (ps : List Policy) (s : State) (q b : String)
    → StartsRuns d
    → d.select_active_fails ≡ false
    → d.active_policies ≡ some ps
    → distinct (policy_ids ps) ≡ true
    → (a.id == "") ≡ false
    → open_runs_for q b (rows (on_alert_created d a now s).0.runs) ≡ (
        if a.id == b && (eqb (open_runs_for q b (rows s.runs)) 0 && taken d a q ps)
        then 1
        else open_runs_for q b (rows s.runs))
unfolding on_alert_created select_active_runs_by_alert
on_alert_created-open_runs_for d a now ps s q b w e g u n = simp (n, e, g) counted
  where
    seen : List String
    seen = covered (select (is_open_for a.id) (rows s.runs))

    same_id :
        (a.id == b) ≡ true → open_runs_for q a.id (rows s.runs) ≡ open_runs_for q b (rows s.runs)
    same_id t = ap (λ i. open_runs_for q i (rows s.runs)) (==→≡ a.id b t)

    counted : open_runs_for q b (rows (start_runs d seen a now ps s).runs) ≡ (
        if a.id == b && (eqb (open_runs_for q b (rows s.runs)) 0 && taken d a q ps)
        then 1
        else open_runs_for q b (rows s.runs))
    counted = ground (
      arith,
      start_runs-open_runs_for d w a now q b seen ps s u,
      covered-open_runs_for q a.id (rows s.runs),
      same_id,
    )
