-- ===== src/Checks/HeartbeatRuns.antt =====
-- A nightly backup that pings every hour, with a grace of a minute: its pings, a missed deadline,
-- and the settings it may have.
use pulseboard.Common.{
  ℕ, true, false, none, some, List, [], ◌∷◌, ◌≡◌, refl, arith, ltb, if◌then◌else◌, ◌+◌, ◌*◌, ◌/◌,
}
use pulseboard.Common.Int.{pos}
use pulseboard.Heartbeat.Model.{up, down, alerting, Heartbeat, Monitor, Faults}
use pulseboard.Heartbeat.Pings.{process_ping, filter_payload}
use pulseboard.Heartbeat.Deadlines.{
  Op, ping, start_ping, exit_code_ping, check, pause, resume, check_deadline, mark_overdue,
  apply_all,
}
use pulseboard.Heartbeat.Deadlines.Soundness.{IsSound, AllWork, apply_all-IsSound}
use pulseboard.Heartbeat.Deadlines.Detection.{raises_alert, check_deadline-process_ping}
use pulseboard.Heartbeat.Limits.{
  CreateHeartbeatInput, UpdateHeartbeatInput, InLimits, bad_grace, update_heartbeat,
}

abbrev pub healthy : Faults
healthy = record {
  insert_ping = false;
  get_execution = false;
  update_execution = false;
  insert_execution = false;
  update_state = false;
  can_store_payload = true;
}

abbrev backup : Heartbeat
backup = record {
  id = "h1";
  name = "backup";
  status = down;
  alert_state = alerting;
  interval_seconds = 3600;
  grace_seconds = 60;
  last_ping_at = none;
  next_deadline_at = some 1000;
  current_run_started_at = none;
  last_exit_code = none;
  last_duration_ms = none;
  consecutive_failures = 1;
  consecutive_successes = 0;
  active = true;
}

abbrev pub nightly : Monitor
nightly = record { row = backup; executions = []; pings = [] }

-- Two starts without an end, a failing end, a missed deadline, and a pause.
abbrev night : List (Faults × ℕ × Op)
night =
    (healthy, 10000, start_ping)
    ∷ (healthy, 20000, start_ping)
    ∷ (healthy, 30000, exit_code_ping (pos 3) none)
    ∷ (healthy, 40000, ping none)
    ∷ (healthy, 9000000, check)
    ∷ (healthy, 9000500, pause)
    ∷ (healthy, 9001000, resume)
    ∷ []

night_ends_up : (apply_all night nightly).row.status ≡ up
unfolding apply_all
night_ends_up = refl

nightly-IsSound : IsSound nightly.row
nightly-IsSound = ground arith

apply_all-IsSound_example : IsSound (apply_all night nightly).row
apply_all-IsSound_example = apply_all-IsSound night nightly nightly-IsSound

night-AllWork : AllWork night
night-AllWork = ground arith

check_deadline-process_ping_example :
    (let after = (process_ping healthy 5000 none nightly).monitor in
      let (found, notices) = check_deadline healthy 3666000 after in
      let late =
        ltb
          ((5000 + (backup.interval_seconds + backup.grace_seconds) * 1000) / 1000)
          (3666000 / 1000) in
      (raises_alert notices ≡ late)
      × (found.row.status ≡ (if late then down else up))
      × (found.row.consecutive_failures ≡ (if late then 1 else 0))
      × (found.row.alert_state ≡ (if late then alerting else after.row.alert_state))
      × (found ≡ (if late then (mark_overdue healthy 3666000 after).0 else after)))
check_deadline-process_ping_example =
    check_deadline-process_ping healthy healthy 5000 3666000 none nightly refl refl refl

abbrev hourly : CreateHeartbeatInput
hourly = record { name = 98 ∷ []; interval_seconds = pos 3600; grace_seconds = pos 600 }

hourly-InLimits : InLimits hourly
hourly-InLimits = ground arith

abbrev each_minute : UpdateHeartbeatInput
each_minute = record { name = none; interval_seconds = some (pos 60); grace_seconds = none }

each_minute_accepted : (update_heartbeat false each_minute hourly).1 ≡ none
unfolding update_heartbeat
each_minute_accepted = refl

abbrev long_grace : UpdateHeartbeatInput
long_grace = record { name = none; interval_seconds = none; grace_seconds = some (pos 3601) }

long_grace_refused : (update_heartbeat false long_grace hourly).1 ≡ some bad_grace
unfolding update_heartbeat
long_grace_refused = refl

long_grace_changes_nothing : (update_heartbeat false long_grace hourly).0 ≡ hourly
unfolding update_heartbeat
long_grace_changes_nothing = refl

no_payload_without_licence : filter_payload false (some (1 ∷ [])) ≡ none
unfolding filter_payload
no_payload_without_licence = refl
