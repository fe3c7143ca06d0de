-- ===== src/Escalation/Cycle.antt =====
-- EvaluateCycle of internal/alert/escalation/runner.go: the orphans, then every run that is due.
pub mod Selection
pub mod Machine
pub mod Loops
pub mod Refinement
pub mod Table
pub mod Progress
use pulseboard.Common.{
  ℕ, ◌+◌, ◌-◌, String, string_eq, Bool, true, false, not, Option, none, some, List, [], ◌∷◌,
  if◌then◌else◌,
}
use pulseboard.Common.Assoc.{lookup}
use pulseboard.Alert.Model.{Alert, NotificationChannel}
use pulseboard.Escalation.Model.{is_open, Run, Delivery, abandoned}
use pulseboard.Escalation.Store.{
  State, RunnerDeps, select_due_runs, update_delivery, select_orphans,
}
use pulseboard.Escalation.Runner.{is_active_status, process_runs}

unfoldable pub abandon_delivery : RunnerDeps → Delivery → String → State → State
unfolding update_delivery
abandon_delivery d row reason s = record s {
  deliveries = update_delivery d (record row { status = abandoned; error = reason }) s.deliveries;
}

abbrev pub retry :
    RunnerDeps → Delivery → Alert → Option (Option NotificationChannel) → State → State
retry d row a (some (some ch)) s = record s {
  sends = record { delivery = row; alert = a; channel = ch } ∷ s.sends;
}
retry d row a _ s = abandon_delivery d row "channel unavailable" s

abbrev pub retry_for : RunnerDeps → Delivery → Option (Option Alert) → State → State
retry_for d row (some (some a)) s =
    if is_active_status a.status
    then elim row.channel_id [
      | none ↦ abandon_delivery d row "channel removed" s
      | some ch_id ↦ retry d row a (d.get_channel ch_id) s
    ]
    else abandon_delivery d row "alert no longer active" s
retry_for d row _ s = abandon_delivery d row "alert no longer active" s

abbrev pub recover : RunnerDeps → Delivery → Option Run → State → State
recover d row none s = abandon_delivery d row "run vanished" s
recover d row (some run) s =
    if not (is_open run.status)
    then abandon_delivery d row "run terminated" s
    else retry_for d row (d.get_alert run.alert_id) s

unfoldable pub recover_all : RunnerDeps → List Delivery → State → State
unfolding abandon_delivery
recover_all d [] s = s
recover_all d (row ∷ rows) s =
    recover_all d rows
      (recover d row (if d.select_run_fails row.run_id then none else lookup row.run_id s.runs) s)

-- The rows have no time before 0, so a cutoff that stops there selects nothing either.
unfoldable pub recover_orphans : RunnerDeps → ℕ → State → State
unfolding recover_all select_orphans
recover_orphans d now s =
    if d.select_orphans_fails
    then s
    else recover_all d (select_orphans (now - d.orphan_timeout) s) s

-- An error of the recovery is logged, one of the selection ends the cycle.
unfoldable pub evaluate_cycle : RunnerDeps → ℕ → State → State
unfolding recover_orphans process_runs select_due_runs
evaluate_cycle d now s =
    let s1 = recover_orphans d now s in
    if d.select_due_fails then s1 else process_runs d now (select_due_runs now s1) s1
