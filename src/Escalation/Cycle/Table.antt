-- ===== src/Escalation/Cycle/Table.antt =====
-- No operation on an existing run breaks the table of runs.
use pulseboard.Common.{
  ℕ, ◌+◌, String, string_eq, Option, none, some, List, [], ◌∷◌, ◌≡◌, refl, ◌∙◌, ◌==◌, arith,
  Bool-cases, inl, inr, eq_iff, All, get_elem?,
}
use pulseboard.Common.Int.{pos}
use pulseboard.Common.Assoc.{lookup, insert}
use pulseboard.Alert.Model.{Alert}
use pulseboard.Escalation.Model.{
  Level, Policy, stopped_by_resolution, stopped_by_policy_deletion, exhausted, Run,
}
use pulseboard.Escalation.Store.{
  State, RunnerDeps, put_run, write_run, terminated, progressed, paused, resumed, select_due_runs,
  run_ids,
}
use pulseboard.Escalation.Runner.{
  dispatch_all, announce_exhausted, on_level, on_snapshot, on_alert, next_level, next_time,
  process_run, process_runs,
}
use pulseboard.Escalation.Cycle.{recover_orphans, evaluate_cycle}
use pulseboard.Escalation.Cycle.Selection.{IsTable, StandsAt}
use pulseboard.Escalation.Cycle.Machine.{dispatch_all-runs, announce_exhausted-runs}
use pulseboard.Escalation.Cycle.Refinement.{recover_orphans-IsTable}

pub All-lookup :
    (id : String) (m : List (String × Run)) (r : Run)
    → All StandsAt m
    → lookup id m ≡ some r
    → r.id ≡ id
unfolding lookup
All-lookup id [] r a e = ground arith
All-lookup id ((k, q) ∷ m) r (h, a) e = ground (arith, All-lookup id m r a, eq_iff k id)

pub All-insert :
    (id : String) (v : Run) (m : List (String × Run))
    → All StandsAt m
    → v.id ≡ id
    → All StandsAt (insert id v m)
unfolding insert
All-insert id v [] a e = (e, tt)
All-insert id v ((k, q) ∷ m) (h, a) e = elim (Bool-cases (k == id)) [
  | inl t ↦ ground (arith, h, e, a)
  | inr f ↦ ground (arith, h, All-insert id v m a e)
]

run_ids-insert :
    (id : String) (v r : Run) (m : List (String × Run))
    → lookup id m ≡ some r
    → run_ids (insert id v m) ≡ run_ids m
unfolding lookup insert
run_ids-insert id v r [] e = ground arith
run_ids-insert id v r ((k, q) ∷ m) e = ground (arith, run_ids-insert id v r m, eq_iff k id)

put_run-IsTable :
    (id : String) (change : Run → Run) (o : Option Run) (s : State)
    → ((r : Run) → (change r).id ≡ r.id)
    → lookup id s.runs ≡ o
    → IsTable s
    → IsTable (put_run id change o s)
put_run-IsTable id change none s c e t = t
put_run-IsTable id change (some r) s c e t = record {
  keyed = All-insert id (change r) s.runs t.keyed (c r ∙ All-lookup id s.runs r t.keyed e);
  unique = rw (run_ids-insert id (change r) r s.runs e) t.unique;
}

pub write_run-IsTable :
    (d : RunnerDeps) (id : String) (change : Run → Run) (s : State)
    → ((r : Run) → (change r).id ≡ r.id)
    → IsTable s
    → IsTable (write_run d id change s)
unfolding write_run
write_run-IsTable d id change s c t = elim (Bool-cases (d.update_run_fails id)) [
  | inl f ↦ rw f t
  | inr w ↦ rw w (put_run-IsTable id change (lookup id s.runs) s c refl t)
]

-- A state with the same runs.
same_runs-IsTable : (s after : State) → after.runs ≡ s.runs → IsTable s → IsTable after
same_runs-IsTable s after e t = record { keyed = rw e t.keyed; unique = rw e t.unique }

module _ (d : RunnerDeps) (now : ℕ) (run : Run) (s : State) (t : IsTable s) where
  on_level-IsTable :
      (a : Alert) (levels : List Level) (level : Option Level)
      → IsTable (on_level d now run a levels level s)
  on_level-IsTable a levels none =
      write_run-IsTable d run.id (terminated exhausted now)
        (announce_exhausted d run a levels run.last_executed_level_index s) (λ r. refl)
        (same_runs-IsTable s (announce_exhausted d run a levels run.last_executed_level_index s)
          (announce_exhausted-runs d run a levels run.last_executed_level_index s) t)
  on_level-IsTable a levels (some l) =
      write_run-IsTable d run.id
        (progressed (next_level run) (next_time now levels (next_level run)))
        (dispatch_all d run.id (pos (next_level run)) l.channel_ids a s) (λ r. refl)
        (same_runs-IsTable s (dispatch_all d run.id (pos (next_level run)) l.channel_ids a s)
          (dispatch_all-runs d run.id (pos (next_level run)) l.channel_ids a s) t)

  on_snapshot-IsTable : (a : Alert) (p : Option Policy) → IsTable (on_snapshot d now run a p s)
  on_snapshot-IsTable a none =
      write_run-IsTable d run.id (terminated stopped_by_policy_deletion now) s (λ r. refl) t
  on_snapshot-IsTable a (some p) = on_level-IsTable a p.levels (get_elem? p.levels (next_level run))

  on_alert-IsTable : (answer : Option (Option Alert)) → IsTable (on_alert d now run answer s)
  on_alert-IsTable none = t
  on_alert-IsTable (some none) =
      write_run-IsTable d run.id (terminated stopped_by_resolution now) s (λ r. refl) t
  on_alert-IsTable (some (some a)) = ground (
    arith,
    write_run-IsTable d run.id (terminated stopped_by_resolution now) s (λ r. refl) t,
    write_run-IsTable d run.id (paused (now + 60)) s (λ r. ground arith) t,
    write_run-IsTable d run.id (resumed now) s (λ r. ground arith) t,
    on_snapshot-IsTable a (d.unmarshal run.policy_snapshot_json),
  )

process_runs-IsTable :
    (d : RunnerDeps) (now : ℕ) (rs : List Run) (s : State)
    → IsTable s
    → IsTable (process_runs d now rs s)
unfolding process_runs
process_runs-IsTable d now [] s t = t
process_runs-IsTable d now (r ∷ rs) s t =
    process_runs-IsTable d now rs (process_run d now r s)
      (on_alert-IsTable d now r s t (d.get_alert r.alert_id))

pub evaluate_cycle-IsTable :
    (d : RunnerDeps) (now : ℕ) (s : State) → IsTable s → IsTable (evaluate_cycle d now s)
unfolding evaluate_cycle
evaluate_cycle-IsTable d now s t = elim (Bool-cases d.select_due_fails) [
  | inl f ↦ rw f (recover_orphans-IsTable d now s t)
  | inr w ↦ rw w (
      process_runs-IsTable d now (select_due_runs now (recover_orphans d now s))
        (recover_orphans d now s) (recover_orphans-IsTable d now s t))
]
