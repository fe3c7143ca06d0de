-- ===== src/Escalation/Runner.antt =====
-- internal/alert/escalation/runner.go: one run and its deliveries (processRun, executeLevel,
-- dispatchSpecial, dispatchToChannel, deliverAndUpdate).
use pulseboard.Common.{
  ℕ, suc, ◌+◌, String, string_eq, Bool, true, false, not, ◌||◌, Option, none, some, List, [], ◌∷◌,
  get_elem?, length, if◌then◌else◌,
}
use pulseboard.Common.Int.{ℤ, pos, negsuc}
use pulseboard.Alert.Model.{AlertStatus, active, Alert, NotificationChannel}
use pulseboard.Escalation.Model.{
  Level, Policy, stopped_by_resolution, stopped_by_policy_deletion, exhausted, is_paused, Run,
  Delivery, pending, sent, failed, Send,
}
use pulseboard.Escalation.Store.{
  State, RunnerDeps, write_run, terminated, progressed, paused, resumed, reserved, update_delivery,
  delivery_ids,
}

abbrev pub special_level_ack : ℤ
special_level_ack = negsuc 0

abbrev pub special_level_exhausted : ℤ
special_level_exhausted = negsuc 2

abbrev pub maintenance_recheck : ℕ
maintenance_recheck = 60

-- What follows the insertion of the row `row`.
abbrev pub start_delivery : RunnerDeps → Delivery → Alert → NotificationChannel → State → State
start_delivery d row a ch s =
    let rows = row ∷ s.deliveries in
    if ch.enabled
    then record s {
      deliveries = rows;
      sends = record { delivery = row; alert = a; channel = ch } ∷ s.sends;
    }
    else record s {
      deliveries =
          update_delivery d (record row { status = failed; error = "channel disabled" }) rows;
    }

abbrev pub on_channel :
    RunnerDeps
    → String
    → ℤ
    → String
    → Alert
    → ℕ
    → Option (Option NotificationChannel)
    → State
    → State
on_channel d run_id level ch_id a now none s = s
on_channel d run_id level ch_id a now (some none) s = s
on_channel d run_id level ch_id a now (some (some ch)) s =
    if d.insert_delivery_fails run_id level ch_id || reserved run_id level ch_id s.deliveries
    then s
    else start_delivery d
        (record {
          id = d.new_id (delivery_ids s.deliveries);
          run_id = run_id;
          level_index = level;
          channel_id = some ch_id;
          status = pending;
          error = "";
          attempt_started_at = now;
          sent_at = none;
        })
        a ch s

unfoldable pub dispatch_to_channel : RunnerDeps → String → ℤ → String → Alert → ℕ → State → State
dispatch_to_channel d run_id level ch_id a now s =
    on_channel d run_id level ch_id a now (d.get_channel ch_id) s

-- executeLevel and dispatchSpecial
unfoldable pub dispatch_all : RunnerDeps → String → ℤ → List String → Alert → State → State
unfolding dispatch_to_channel
dispatch_all d run_id level [] a s = s
dispatch_all d run_id level (ch_id ∷ ids) a s =
    dispatch_all d run_id level ids a (dispatch_to_channel d run_id level ch_id a d.clock s)

-- deliverAndUpdate, given the error of SendNow as truncateErr cuts it, or none.
unfoldable pub deliver_and_update : RunnerDeps → Option String → Send → State → State
unfolding update_delivery
deliver_and_update d none x s = record s {
  deliveries =
      update_delivery d (record x.delivery { status = sent; sent_at = some d.clock }) s.deliveries;
}
deliver_and_update d (some error) x s = record s {
  deliveries =
      update_delivery d (record x.delivery { status = failed; error = error }) s.deliveries;
}

abbrev pub next_level : Run → ℕ
next_level run = elim run.last_executed_level_index [ none ↦ 0 | some i ↦ suc i ]

-- When the level after `level` is due.
abbrev pub next_time : ℕ → List Level → ℕ → ℕ
next_time now levels level = elim (get_elem? levels (suc level)) [
  | none ↦ now
  | some l ↦ now + l.delay_seconds
]

abbrev pub exhausted_alert : RunnerDeps → Alert → ℕ → Alert
exhausted_alert d a n = record a { message = d.exhausted_message a n }

-- The notification of a run that has executed the level `last`.
abbrev pub announce_exhausted : RunnerDeps → Run → Alert → List Level → Option ℕ → State → State
announce_exhausted d run a levels none s = s
announce_exhausted d run a levels (some last) s = elim (get_elem? levels last) [
  | none ↦ s
  | some l ↦
      dispatch_all d run.id special_level_exhausted l.channel_ids
        (exhausted_alert d a (length levels)) s
]

abbrev pub on_level : RunnerDeps → ℕ → Run → Alert → List Level → Option Level → State → State
on_level d now run a levels none s =
    write_run d run.id (terminated exhausted now)
      (announce_exhausted d run a levels run.last_executed_level_index s)
on_level d now run a levels (some level) s =
    write_run d run.id (progressed (next_level run) (next_time now levels (next_level run)))
      (dispatch_all d run.id (pos (next_level run)) level.channel_ids a s)

abbrev pub on_snapshot : RunnerDeps → ℕ → Run → Alert → Option Policy → State → State
on_snapshot d now run a none s = write_run d run.id (terminated stopped_by_policy_deletion now) s
on_snapshot d now run a (some policy) s =
    on_level d now run a policy.levels (get_elem? policy.levels (next_level run)) s

abbrev pub is_active_status : AlertStatus → Bool
is_active_status active = true
is_active_status _ = false

abbrev pub on_alert : RunnerDeps → ℕ → Run → Option (Option Alert) → State → State
on_alert d now run none s = s
on_alert d now run (some none) s = write_run d run.id (terminated stopped_by_resolution now) s
on_alert d now run (some (some a)) s =
    if not (is_active_status a.status)
    then write_run d run.id (terminated stopped_by_resolution now) s
    else if d.is_suppressed a.source a.entity_type a.entity_id
    then write_run d run.id (paused (now + maintenance_recheck)) s
    else if is_paused run.status
    then write_run d run.id (resumed now) s
    else on_snapshot d now run a (d.unmarshal run.policy_snapshot_json) s

unfoldable pub process_run : RunnerDeps → ℕ → Run → State → State
unfolding write_run dispatch_all
process_run d now run s = on_alert d now run (d.get_alert run.alert_id) s

unfoldable pub process_runs : RunnerDeps → ℕ → List Run → State → State
unfolding process_run
process_runs d now [] s = s
process_runs d now (run ∷ runs) s = process_runs d now runs (process_run d now run s)
