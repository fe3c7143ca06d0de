-- ===== src/Checks/CertificateRuns.antt =====
-- A certificate with three weeks left, renewed or not, and the alert engine beside it.
use pulseboard.Common.{
  ℕ, ◌*◌, string_eq, true, false, not, ◌||◌, none, some, List, [], ◌∷◌, ◌==◌, ◌≡◌, refl, select,
}
use pulseboard.Common.Assoc.{lookup, insert, delete}
use pulseboard.Common.Int.{ℤ, pos}
use pulseboard.Alert.Model.{Event}
use pulseboard.Alert.Deps.{Deps}
use pulseboard.Alert.Engine.{Engine, run, process_event, reload_active_alerts}
use pulseboard.Alert.Engine.Invariant.{
  IsKeyed, start, start-IsKeyed, run-reload_active_alerts-IsKeyed,
}
use pulseboard.Alert.Engine.Standing.{stands, events_of}
use pulseboard.Certificate.Model.{valid, expired, standalone, CertMonitor, CheckCertificateResult}
use pulseboard.Certificate.Thresholds.{
  IsLeastCrossed, crossed_threshold, crossed_threshold-IsLeastCrossed,
}
use pulseboard.Certificate.Service.{Calls, Clock, Check, day, run_checks}
use pulseboard.Certificate.Service.Escalation.{in_order, is_set, run_checks-in_order}
use pulseboard.Wiring.Certificates.{
  Report, certificate_key, is_of, on_certificate_events, run_checks-stands, run_checks-linked,
}
use pulseboard.Checks.AlertRuns.{desk, on_desk}

abbrev calls : Calls
calls = record { lower_contains = λ s t. s == t; allows_ocsp = true }

abbrev read_at : ℕ → Clock
read_at t = record {
  checked_at = t;
  status_expiry_at = t;
  status_days_at = t;
  alert_days_at = t;
  alert_expiry_at = t;
}

abbrev until : ℕ → CheckCertificateResult
until t = record {
  error_text = "";
  issuer_org = "zerossl";
  not_after = t;
  chain_valid = true;
  hostname_match = true;
  ocsp_status = "good";
}

abbrev thresholds : List ℤ
thresholds = pos 7 ∷ pos 30 ∷ pos 14 ∷ []

abbrev site : CertMonitor
site = record {
  id = "m1";
  hostname = "example.org";
  source = standalone;
  status = valid;
  check_interval_seconds = 43200;
  warning_thresholds = thresholds;
  last_alerted_threshold = none;
  last_check_at = none;
  next_check_at = none;
  last_error = "";
}

-- Three weeks, then ten days, then renewed, then run out.
abbrev checks : List Check
checks =
    record { clock = read_at day; raw = until (22 * day); update_fails = false }
    ∷ record { clock = read_at (12 * day); raw = until (22 * day); update_fails = false }
    ∷ record { clock = read_at (13 * day); raw = until (100 * day); update_fails = false }
    ∷ record { clock = read_at (101 * day); raw = until (100 * day); update_fails = false }
    ∷ []

least_wins : crossed_threshold (pos 10) thresholds ≡ some (pos 14)
unfolding crossed_threshold
least_wins = refl

crossed_threshold-IsLeastCrossed_example :
    IsLeastCrossed (pos 10) thresholds (crossed_threshold (pos 10) thresholds)
crossed_threshold-IsLeastCrossed_example = crossed_threshold-IsLeastCrossed (pos 10) thresholds

run_checks-in_order_example : in_order none (run_checks calls checks site).1 ≡ true
run_checks-in_order_example = run_checks-in_order calls checks site refl

ends_expired : (run_checks calls checks site).0.status ≡ expired
unfolding run_checks
ends_expired = refl

abbrev report : Report
report = record { message = λ e. "certificate"; details = λ e. "{}"; now = 0 }

-- The last check alone, and the one after a renewal.
abbrev after_expiry : List Check
after_expiry =
    record { clock = read_at (102 * day); raw = until (400 * day); update_fails = false } ∷ []

abbrev ran_out : Engine
ran_out =
    (run (on_desk (on_certificate_events report site (run_checks calls checks site).1)) start).0

expired_is_active : stands ran_out (certificate_key "m1" "expired") ≡ true
unfolding run process_event lookup insert delete run_checks on_certificate_events
expired_is_active = refl

ran_out-IsKeyed : IsKeyed ran_out
unfolding reload_active_alerts
ran_out-IsKeyed =
    run-reload_active_alerts-IsKeyed desk
      (on_desk (on_certificate_events report site (run_checks calls checks site).1)) tt

-- The renewal is checked, and the engine takes what the check sends.
abbrev renewal : List (Deps × Event)
renewal = on_desk (on_certificate_events report site (run_checks calls after_expiry site).1)

only_renewal :
    select (is_of "m1") (events_of renewal)
    ≡ on_certificate_events report site (run_checks calls after_expiry site).1
unfolding run_checks on_certificate_events
only_renewal = refl

run_checks-stands_example : stands (run renewal ran_out).0 (certificate_key "m1" "expired") ≡ true
run_checks-stands_example =
    run_checks-stands calls report after_expiry site renewal ran_out "expired" ran_out-IsKeyed
      only_renewal refl expired_is_active

abbrev both : List (Deps × Event)
both = on_desk (on_certificate_events report site (run_checks calls checks site).1)

only_both :
    select (is_of "m1") (events_of both)
    ≡ on_certificate_events report site (run_checks calls checks site).1
unfolding run_checks on_certificate_events
only_both = refl

nothing_stands : (not (stands start (certificate_key "m1" "expiring")) || is_set none) ≡ true
unfolding lookup
nothing_stands = refl

run_checks-linked_example :
    (not (stands (run both start).0 (certificate_key "m1" "expiring"))
      || is_set (run_checks calls checks site).0.last_alerted_threshold)
    ≡ true
run_checks-linked_example =
    run_checks-linked calls report checks site both start start-IsKeyed refl only_both
      nothing_stands
