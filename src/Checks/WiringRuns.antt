-- ===== src/Checks/WiringRuns.antt =====
-- A heartbeat beside the alert engine.
use pulseboard.Common.{ℕ, string_eq, true, false, not, ◌||◌, none, List, [], ◌∷◌, ◌≡◌, refl}
use pulseboard.Common.Int.{pos}
use pulseboard.Common.Assoc.{lookup, insert, delete}
use pulseboard.Alert.Engine.{process_event}
use pulseboard.Alert.Engine.Invariant.{start, start-IsKeyed}
use pulseboard.Alert.Engine.Standing.{stands}
use pulseboard.Heartbeat.Model.{is_alerting, Faults}
use pulseboard.Heartbeat.Deadlines.{Op, ping, exit_code_ping}
use pulseboard.Wiring.Heartbeats.{exit_code_failure, Surroundings, run_ops}
use pulseboard.Wiring.Heartbeats.Linked.{heartbeat_key, run_ops-alerting}
use pulseboard.Checks.AlertRuns.{desk}
use pulseboard.Checks.HeartbeatRuns.{healthy, nightly}

abbrev around : Surroundings
around = record {
  answers = λ evt. desk;
  resolve_deps = desk;
  updated = λ id. true;
  message = λ kind name. name;
  details = none;
  now = 0;
}

abbrev failing_end : List (Surroundings × Faults × ℕ × Op)
failing_end = (around, healthy, 10000, exit_code_ping (pos 3) none) ∷ []

-- The job fails, and then succeeds.
abbrev recovers_again : List (Surroundings × Faults × ℕ × Op)
recovers_again =
    (around, healthy, 10000, exit_code_ping (pos 3) none) ∷ (around, healthy, 20000, ping none) ∷ []

alert_is_active :
    stands (run_ops failing_end nightly start).1 (heartbeat_key "h1" exit_code_failure) ≡ true
unfolding run_ops process_event lookup insert
alert_is_active = refl

alert_is_cleared :
    stands (run_ops recovers_again nightly start).1 (heartbeat_key "h1" exit_code_failure) ≡ false
unfolding run_ops process_event lookup insert delete
alert_is_cleared = refl

nothing_before :
    (not (stands start (heartbeat_key "h1" exit_code_failure))
      || is_alerting nightly.row.alert_state)
    ≡ true
unfolding lookup
nothing_before = refl

run_ops-alerting_example :
    (not (stands (run_ops recovers_again nightly start).1 (heartbeat_key "h1" exit_code_failure))
      || is_alerting (run_ops recovers_again nightly start).0.row.alert_state)
    ≡ true
run_ops-alerting_example =
    run_ops-alerting recovers_again nightly start exit_code_failure refl start-IsKeyed
      nothing_before
