-- ===== src/Escalation/Stops.antt =====
-- What an acknowledgment and a resolution do to the runs of their alert, and to no other.
use pulseboard.Common.{
  ℕ, String, string_eq, false, Option, none, some, List, [], ◌∷◌, ◌≡◌, refl, ◌∙◌, ap, ◌==◌, ==→≡,
  arith, if◌then◌else◌, Bool-cases, inl, inr, select,
}
use pulseboard.Common.Assoc.{lookup}
use pulseboard.Alert.Model.{Alert}
use pulseboard.Escalation.Model.{
  RunStatus, stopped_by_ack, stopped_by_resolution, Run, Acknowledgment,
}
use pulseboard.Escalation.Store.{
  State, RunnerDeps, rows, write_run, terminated, is_open_for, select_active_runs_by_alert,
}
use pulseboard.Escalation.Hooks.{
  last_channels, announce_ack, stop_by_ack, on_alert_acknowledged, stop_by_resolution,
  on_alert_resolved, ack_alert,
}
use pulseboard.Escalation.Cycle.Selection.{IsTable, find_run-select, distinct_runs-select}
use pulseboard.Escalation.Cycle.Machine.{on_run, lookup-write_run, dispatch_all-runs}
use pulseboard.Escalation.Cycle.Loops.{
  AreRead, each, settled, Writes, lookup-each, found-AreRead, settled-when,
}
use pulseboard.Escalation.Runner.{special_level_ack}

-- The run ends with the status at the time, if its row can be written.
abbrev pub stopped : RunnerDeps → RunStatus → ℕ → Run → Run
stopped d status at r =
    if d.update_run_fails r.id
    then r
    else record r { status = status; ended_at = some at; next_action_at = none }

open_runs-AreRead :
    (alert_id : String) (s : State) → IsTable s → AreRead (select_active_runs_by_alert alert_id s) s
unfolding select_active_runs_by_alert
open_runs-AreRead alert_id s t =
    found-AreRead (is_open_for alert_id) (select (is_open_for alert_id) (rows s.runs)) s
      (distinct_runs-select (is_open_for alert_id) s.runs t.keyed t.unique)
      (λ id. find_run-select (is_open_for alert_id) id s.runs t.keyed t.unique)
      (λ r h. ground (arith, h))

-- A loop over the open runs of an alert changes those runs alone.
lookup-each_open :
    (step : Run → State → State) (change : Run → Run) (alert_id id : String) (s : State)
    → Writes step change
    → IsTable s
    → lookup id (each step (select_active_runs_by_alert alert_id s) s).runs
      ≡ on_run (λ r. if is_open_for alert_id r then change r else r) (lookup id s.runs)
unfolding select_active_runs_by_alert
lookup-each_open step change alert_id id s w t =
    lookup-each step change w (select (is_open_for alert_id) (rows s.runs)) id s
      (open_runs-AreRead alert_id s t)
    ∙ ap (λ found. settled change found (lookup id s.runs))
        (find_run-select (is_open_for alert_id) id s.runs t.keyed t.unique)
    ∙ settled-when (is_open_for alert_id) change (lookup id s.runs)

abbrev ack_step : RunnerDeps → Acknowledgment → Option (Option Alert) → ℕ → Run → State → State
ack_step d ack a now run s =
    if d.update_run_fails run.id
    then s
    else announce_ack d ack run a (write_run d run.id (terminated stopped_by_ack now) s)

abbrev resolution_step : RunnerDeps → ℕ → Run → State → State
resolution_step d at run s = write_run d run.id (terminated stopped_by_resolution at) s

stop_by_ack-each :
    (d : RunnerDeps) (ack : Acknowledgment) (a : Option (Option Alert)) (now : ℕ) (rs : List Run)
    (s : State)
    → stop_by_ack d ack a now rs s ≡ each (ack_step d ack a now) rs s
unfolding stop_by_ack
stop_by_ack-each d ack a now [] s = refl
stop_by_ack-each d ack a now (r ∷ rs) s = stop_by_ack-each d ack a now rs (ack_step d ack a now r s)

stop_by_resolution-each :
    (d : RunnerDeps) (at : ℕ) (rs : List Run) (s : State)
    → stop_by_resolution d at rs s ≡ each (resolution_step d at) rs s
unfolding stop_by_resolution
stop_by_resolution-each d at [] s = refl
stop_by_resolution-each d at (r ∷ rs) s = stop_by_resolution-each d at rs (resolution_step d at r s)

announce_ack-runs :
    (d : RunnerDeps) (ack : Acknowledgment) (run : Run) (o : Option (Option Alert)) (s : State)
    → (announce_ack d ack run o s).runs ≡ s.runs
announce_ack-runs d ack run none s = refl
announce_ack-runs d ack run (some none) s = refl
announce_ack-runs d ack run (some (some a)) s =
    dispatch_all-runs d run.id special_level_ack (last_channels d run) (ack_alert d ack a) s

ack_step-Writes :
    (d : RunnerDeps) (ack : Acknowledgment) (a : Option (Option Alert)) (now : ℕ)
    → Writes (ack_step d ack a now) (stopped d stopped_by_ack now)
ack_step-Writes d ack a now = record {
  at = λ r k s h o. elim (Bool-cases (r.id == k)) [
    | inl t ↦ ground (
      arith,
      ==→≡ r.id k t,
      h,
      announce_ack-runs d ack r a (write_run d r.id (terminated stopped_by_ack now) s),
      lookup-write_run d r.id k (terminated stopped_by_ack now) r s h,
    )
    | inr f ↦ ground (
      arith,
      announce_ack-runs d ack r a (write_run d r.id (terminated stopped_by_ack now) s),
      lookup-write_run d r.id k (terminated stopped_by_ack now) r s h,
    )
  ];
}

resolution_step-Writes :
    (d : RunnerDeps) (at : ℕ) → Writes (resolution_step d at) (stopped d stopped_by_resolution at)
resolution_step-Writes d at = record {
  at = λ r k s h o. lookup-write_run d r.id k (terminated stopped_by_resolution at) r s h;
}

-- If the store lists the open runs of the alert, an acknowledgment stops each of them whose row can
-- be written, and leaves every other run as it was.
pub lookup-on_alert_acknowledged :
    (d : RunnerDeps) (alert_id id : String) (ack : Acknowledgment) (now : ℕ) (s : State)
    → IsTable s
    → d.select_active_fails ≡ false
    → lookup id (on_alert_acknowledged d alert_id ack now s).0.runs
      ≡ on_run
          (λ r. if is_open_for alert_id r then stopped d stopped_by_ack now r else r)
          (lookup id s.runs)
unfolding on_alert_acknowledged
lookup-on_alert_acknowledged d alert_id id ack now s t e = simp e (
    ap (λ after. lookup id after.runs)
      (stop_by_ack-each d ack (d.get_alert alert_id) now (select_active_runs_by_alert alert_id s) s)
    ∙ lookup-each_open (ack_step d ack (d.get_alert alert_id) now) (stopped d stopped_by_ack now)
        alert_id id s (ack_step-Writes d ack (d.get_alert alert_id) now) t)

-- If the store lists the open runs of the alert, a resolution stops each of them whose row can be
-- written, and leaves every other run as it was.
pub lookup-on_alert_resolved :
    (d : RunnerDeps) (alert_id id : String) (at : ℕ) (s : State)
    → IsTable s
    → d.select_active_fails ≡ false
    → lookup id (on_alert_resolved d alert_id at s).0.runs
      ≡ on_run
          (λ r. if is_open_for alert_id r then stopped d stopped_by_resolution at r else r)
          (lookup id s.runs)
unfolding on_alert_resolved
lookup-on_alert_resolved d alert_id id at s t e = simp e (
    ap (λ after. lookup id after.runs)
      (stop_by_resolution-each d at (select_active_runs_by_alert alert_id s) s)
    ∙ lookup-each_open (resolution_step d at) (stopped d stopped_by_resolution at) alert_id id s
        (resolution_step-Writes d at) t)
