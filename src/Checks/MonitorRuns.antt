-- ===== src/Checks/MonitorRuns.antt =====
-- Crash loops, endpoints, containers that stay down, and the update window of a licence.
use pulseboard.Common.{
  map, ℕ, ◌*◌, ◌+◌, String, string_eq, Bool, true, false, not, ◌&&◌, ◌||◌, none, some, List, [],
  ◌∷◌, ◌==◌, ◌≡◌, refl, arith, any, select, ltb, length,
}
use pulseboard.Common.Assoc.{lookup, insert}
use pulseboard.Alert.Model.{Event, active}
use pulseboard.Alert.Deps.{Deps}
use pulseboard.Alert.Engine.{Engine, new_alert, run, reload_active_alerts}
use pulseboard.Alert.Engine.Invariant.{
  IsKeyed, start, start-IsKeyed, run-reload_active_alerts-IsKeyed,
}
use pulseboard.Alert.Engine.Standing.{stands, events_of, opened}
use pulseboard.Alert.Down as Down
use pulseboard.Alert.Down.{Container, Texts, exited, running, critical, is_firing, is_down_past}
use pulseboard.Alert.Down.Exact.{down_key, events_or_none, check-opened}
use pulseboard.Swarm.CrashLoop.{
  minute, Detector, record_failure, check_recoveries, is_crash_looping, crash_loop_event,
}
use pulseboard.Swarm.CrashLoop.Window.{crash_loop_detected, crash_loop_recovered, notice_of}
use pulseboard.Swarm.CrashLoop.Services.{Op, failure, look, run_detector, reported_of}
use pulseboard.Swarm.CrashLoop.Alerts.{crash_loop_key, check_recoveries-stands}
use pulseboard.Endpoint as Endpoint
use pulseboard.Endpoint.{
  unknown, normal, CheckResult, Monitor, Faults, Report, process_all, is_alerting, upsert_endpoint,
  deactivate_endpoint,
}
use pulseboard.Endpoint.History.{IsCounted, process_all-IsCounted}
use pulseboard.Endpoint.Alerts.{endpoint_key, is_of, process_all-alerting}
use pulseboard.Endpoint.Recreation.{recreated, removed, recreated-stands}
use pulseboard.License.{personal, community, State, Messages, day, enforce_update_window}
use pulseboard.License.Grace.{
  Check, held_after, earliest, edition_at, enforce_update_window-edition_at,
}
use pulseboard.Retry.{Backoff, shifted, raw_delay, reset, delays}
use pulseboard.Retry.Doubling.{doubled, delays-reset}
use pulseboard.Checks.AlertRuns.{desk, on_desk, fired}

-- Three failures in five minutes, then ten quiet minutes.
abbrev bad_start : List Op
bad_start =
    failure "a" "web" minute
    ∷ failure "a" "web" (2 * minute)
    ∷ look (2 * minute)
    ∷ failure "a" "web" (3 * minute)
    ∷ look (13 * minute)
    ∷ []

abbrev text : String → ℕ → String
text name n = name

is_detected :
    map notice_of (reported_of text "a" bad_start [])
    ≡ crash_loop_detected "web" (3 * minute) "web" ∷ crash_loop_recovered "a" (13 * minute) ∷ []
unfolding reported_of lookup insert
is_detected = refl

abbrev crashed : String → ℕ → Detector → Detector
crashed id from d =
    (record_failure text (from + 2) id id
      (record_failure text (from + 1) id id (record_failure text from id id d).0).0).0

-- "a" stops crashing, "b" does not.
abbrev two_loops : Detector
two_loops = crashed "b" (9 * minute) (crashed "a" minute [])

abbrev failures_of_two : List Op
failures_of_two =
    failure "a" "a" 1 ∷ failure "b" "b" 2 ∷ failure "a" "a" 3 ∷ look 4 ∷ failure "a" "a" 5 ∷ []

only_a_loops :
    (is_crash_looping "a" (run_detector text failures_of_two []) ≡ true)
    × (is_crash_looping "b" (run_detector text failures_of_two []) ≡ false)
unfolding is_crash_looping run_detector lookup insert
only_a_loops = (refl, refl)

abbrev looping : Engine
looping =
    (run (on_desk (crash_loop_event text 1 "a" 3 ∷ crash_loop_event text 9 "b" 3 ∷ [])) start).0

looping-IsKeyed : IsKeyed looping
unfolding reload_active_alerts
looping-IsKeyed =
    run-reload_active_alerts-IsKeyed desk
      (on_desk (crash_loop_event text 1 "a" 3 ∷ crash_loop_event text 9 "b" 3 ∷ [])) tt

abbrev quiet : List Event
quiet = (check_recoveries text (12 * minute) two_loops).1

still_looping : is_crash_looping "b" (check_recoveries text (12 * minute) two_loops).0 ≡ true
unfolding is_crash_looping check_recoveries record_failure lookup insert
still_looping = refl

one_recovers : (events_of (on_desk quiet) ≡ quiet) × (ltb 0 (length quiet) ≡ true)
unfolding check_recoveries record_failure lookup insert
one_recovers = (refl, refl)

check_recoveries-stands_example : stands (run (on_desk quiet) looping).0 crash_loop_key ≡ false
check_recoveries-stands_example =
    check_recoveries-stands text (12 * minute) two_loops (on_desk quiet) looping looping-IsKeyed
      one_recovers.0 one_recovers.1

abbrev page : Endpoint.Endpoint
page = record {
  id = "e1";
  container_name = "web";
  name = "";
  target = "https://example.org";
  status = unknown;
  alert_state = normal;
  consecutive_failures = 0;
  consecutive_successes = 0;
  last_check_at = none;
  last_response_time_ms = 0;
  last_http_status = none;
  last_error = "";
  failure_threshold = 2;
  recovery_threshold = 1;
  active = true;
}

abbrev monitored : Monitor
monitored = record { row = page; results = [] }

abbrev no_fault : Faults
no_fault = record {
  get_endpoint = false;
  update = false;
  insert_result = false;
  reload = false;
  update_alert_state = false;
}

abbrev probed : Bool → Bool → CheckResult
probed success replayed = record {
  success = success;
  degraded = false;
  degraded_reason = "";
  replayed = replayed;
  response_time_ms = 20;
  http_status = none;
  error_message = "";
  timestamp = 5;
}

abbrev told : Report
told = record { stored_at = 5; evaluated_at = 5; message = λ t ep r. t }

abbrev outage : List (Faults × Report × CheckResult)
outage =
    (no_fault, told, probed false false)
    ∷ (no_fault, told, probed true true)
    ∷ (no_fault, told, probed false false)
    ∷ []

outage_alerts : is_alerting (process_all outage monitored).0.row.alert_state ≡ true
unfolding process_all
outage_alerts = refl

monitored-IsCounted : IsCounted monitored
monitored-IsCounted = record { failures = refl; successes = refl; state = refl }

process_all-IsCounted_example : IsCounted (process_all outage monitored).0
process_all-IsCounted_example = process_all-IsCounted outage monitored refl monitored-IsCounted

abbrev outage_events : List (Deps × Event)
outage_events = on_desk (process_all outage monitored).1

only_outage : select (is_of "e1") (events_of outage_events) ≡ (process_all outage monitored).1
unfolding process_all
only_outage = refl

outage-IsKeyed : IsKeyed (run outage_events start).0
unfolding reload_active_alerts
outage-IsKeyed = run-reload_active_alerts-IsKeyed desk outage_events tt

no_endpoint_alert : (not (stands start (endpoint_key "e1")) || false) ≡ true
unfolding lookup
no_endpoint_alert = refl

process_all-alerting_example :
    (not (stands (run outage_events start).0 (endpoint_key "e1"))
      || is_alerting (process_all outage monitored).0.row.alert_state)
    ≡ true
process_all-alerting_example =
    process_all-alerting outage monitored outage_events start start-IsKeyed refl only_outage
      no_endpoint_alert

-- The container of the failing endpoint is created again, and the endpoint fails twice more.
abbrev down_endpoint : Monitor
down_endpoint = record monitored { row = record page { alert_state = Endpoint.alerting } }

abbrev still_failing : List (Faults × Report × CheckResult)
still_failing = (no_fault, told, probed false false) ∷ (no_fault, told, probed false false) ∷ []

abbrev later_events : List (Deps × Event)
later_events = on_desk (process_all still_failing (recreated false "t" 2 1 down_endpoint)).1

only_later :
    select (is_of "e1") (events_of later_events)
    ≡ (process_all still_failing (recreated false "t" 2 1 down_endpoint)).1
unfolding process_all upsert_endpoint deactivate_endpoint
only_later = refl

recreated-stands_example :
    stands
      (run later_events (removed desk (λ id. true) 9 "e1" (run outage_events start).0)).0
      (endpoint_key "e1")
    ≡ false
recreated-stands_example =
    recreated-stands false "t" 2 1 still_failing down_endpoint desk (λ id. true) 9 later_events
      (run outage_events start).0 outage-IsKeyed refl refl only_later

abbrev texts : Texts
texts = record { message = λ c. c.name; details = λ c. "{}"; recovery = λ name. name }

abbrev stopped : Container
stopped = record {
  id = "c2";
  name = "db";
  state = exited;
  alert_severity = critical;
  last_state_change_at = 10;
}

abbrev db_key_before : Bool
db_key_before = any (λ a. a.entity_id == "c2" && is_firing a) (new_alert desk fired active ∷ [])

check-opened_example :
    opened (down_key "c2") db_key_before (
      events_or_none
        (Down.check texts 60 100 (some (stopped ∷ [])) (some (new_alert desk fired active ∷ []))))
    ≡ any (λ c. c.id == "c2" && is_down_past 60 100 c) (stopped ∷ [])
check-opened_example =
    check-opened texts 60 100 (stopped ∷ []) (new_alert desk fired active ∷ []) "c2"

abbrev messages : Messages
messages = record { grace = λ a b c. "renew"; ended = λ a. "renew" }

abbrev granted : State
granted = record {
  edition = personal;
  status = "active";
  message = "";
  updates_until = none;
  update_grace_until = none;
}

-- A build of day 10 under a window that ends on day 5.
abbrev on_day : ℕ → Check
on_day n = record {
  build = record { version = "1.9"; date = some (10 * day) };
  now = n * day;
  state = granted;
}

grace_is_spent :
    edition_at (5 * day) (on_day 43) (earliest (5 * day) (on_day 20 ∷ on_day 12 ∷ [])) ≡ community
grace_is_spent = refl

enforce_update_window-edition_at_example :
    (enforce_update_window messages false
      (on_day 43).build
      (43 * day)
      (some (5 * day))
      granted
      (held_after messages (5 * day) (on_day 20 ∷ on_day 12 ∷ []))).0.edition
    ≡ edition_at (5 * day) (on_day 43) (earliest (5 * day) (on_day 20 ∷ on_day 12 ∷ []))
enforce_update_window-edition_at_example =
    enforce_update_window-edition_at messages (5 * day) (on_day 43) (on_day 20 ∷ on_day 12 ∷ [])

-- The backoff of the agent's stream: a second, up to a minute.
abbrev stream_backoff : Backoff
stream_backoff = record { least = 1000000000; most = 60000000000; has_jitter = false; attempt = 7 }

delays-reset_example : delays (λ d. d) 4 (reset stream_backoff) ≡ doubled 1000000000 60000000000 0 4
delays-reset_example = delays-reset (λ d. d) 4 stream_backoff refl (omega arith) (omega arith)

doubles : delays (λ d. d) 3 (reset stream_backoff) ≡ 1000000000 ∷ 2000000000 ∷ 4000000000 ∷ []
unfolding delays reset shifted
doubles = refl

-- Seventeen seconds and a bit, shifted by thirty, do not fit: the delay falls below the least one.
abbrev long_backoff : Backoff
long_backoff = record { least = 17179869185; most = 60000000000; has_jitter = false; attempt = 30 }

falls_below_least : raw_delay long_backoff ≡ 1073741824
unfolding raw_delay shifted
falls_below_least = refl
