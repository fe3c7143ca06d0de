-- ===== src/Escalation/Cycle/Refinement.antt =====
-- EvaluateCycle steps the state machine of each due run once, and no other.
use pulseboard.Common.{
  ℕ, String, string_eq, true, false, some, List, [], ◌∷◌, ◌≡◌, refl, ◌∙◌, ap, ◌==◌, arith,
  if◌then◌else◌, if-false,
}
use pulseboard.Common.Assoc.{lookup}
use pulseboard.Escalation.Model.{is_open, Run}
use pulseboard.Escalation.Store.{State, RunnerDeps, is_due, select_due_runs}
use pulseboard.Escalation.Runner.{process_run, process_runs}
use pulseboard.Escalation.Cycle.{recover_orphans, evaluate_cycle}
use pulseboard.Escalation.Cycle.Selection.{
  IsTable, find_run, find_run-select_due_runs, distinct_runs-select_due_runs,
}
use pulseboard.Escalation.Cycle.Loops.{
  AreRead, each, settled, Writes, lookup-each, found-AreRead, settled-when,
}
use pulseboard.Escalation.Cycle.Machine.{
  stepped, after_cycle, on_run, on_alert-lookup, recover_orphans-runs,
}

lookup-process_run :
    (d : RunnerDeps) (now : ℕ) (run : Run) (k : String) (s : State)
    → lookup run.id s.runs ≡ some run
    → is_open run.status ≡ true
    → lookup k (process_run d now run s).runs
      ≡ (if run.id == k then some (stepped d now run) else lookup k s.runs)
unfolding process_run
lookup-process_run d now run k s h o = on_alert-lookup d now run k s (d.get_alert run.alert_id) h o

process_run-Writes : (d : RunnerDeps) (now : ℕ) → Writes (process_run d now) (stepped d now)
process_run-Writes d now = record { at = λ r k s h o. lookup-process_run d now r k s h o }

process_runs-each :
    (d : RunnerDeps) (now : ℕ) (rs : List Run) (s : State)
    → process_runs d now rs s ≡ each (process_run d now) rs s
unfolding process_runs
process_runs-each d now [] s = refl
process_runs-each d now (r ∷ rs) s = process_runs-each d now rs (process_run d now r s)

lookup-process_runs :
    (d : RunnerDeps) (now : ℕ) (rs : List Run) (k : String) (s : State)
    → AreRead rs s
    → lookup k (process_runs d now rs s).runs
      ≡ settled (stepped d now) (find_run k rs) (lookup k s.runs)
lookup-process_runs d now rs k s h =
    ap (λ after. lookup k after.runs) (process_runs-each d now rs s)
    ∙ lookup-each (process_run d now) (stepped d now) (process_run-Writes d now) rs k s h

selected-AreRead : (now : ℕ) (s : State) → IsTable s → AreRead (select_due_runs now s) s
selected-AreRead now s t =
    found-AreRead (is_due now) (select_due_runs now s) s (distinct_runs-select_due_runs now s t)
      (λ id. find_run-select_due_runs now id s t) (λ r h. ground (arith, h))

pub recover_orphans-IsTable :
    (d : RunnerDeps) (now : ℕ) (s : State) → IsTable s → IsTable (recover_orphans d now s)
recover_orphans-IsTable d now s t = record {
  keyed = rw (recover_orphans-runs d now s) t.keyed;
  unique = rw (recover_orphans-runs d now s) t.unique;
}

-- If the store selects the due runs, a cycle changes the run under each id by exactly one step of
-- the state machine if the run is due, and not at all if it is not.
pub lookup-evaluate_cycle :
    (d : RunnerDeps) (now : ℕ) (id : String) (s : State)
    → IsTable s
    → d.select_due_fails ≡ false
    → lookup id (evaluate_cycle d now s).runs ≡ on_run (after_cycle d now) (lookup id s.runs)
unfolding evaluate_cycle
lookup-evaluate_cycle d now id s t e =
    ap (λ after. lookup id after.runs)
      (if-false d.select_due_fails s1 (process_runs d now due s1) e)
    ∙ lookup-process_runs d now due id s1 (selected-AreRead now s1 t1)
    ∙ ap (λ found. settled (stepped d now) found (lookup id s1.runs))
        (find_run-select_due_runs now id s1 t1)
    ∙ settled-when (is_due now) (stepped d now) (lookup id s1.runs)
    ∙ ap (λ m. on_run (after_cycle d now) (lookup id m)) (recover_orphans-runs d now s)
  where
    s1 : State
    s1 = recover_orphans d now s

    t1 : IsTable s1
    t1 = recover_orphans-IsTable d now s t

    due : List Run
    due = select_due_runs now s1
