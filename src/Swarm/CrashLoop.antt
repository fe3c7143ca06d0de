-- ===== src/Swarm/CrashLoop.antt =====
-- CrashLoopDetector of internal/swarm/crashloop.go. Times are nanoseconds. A state is a pointer in
-- Go: where the code changes the state behind a map entry, the model writes the entry again.
pub mod Window
pub mod Reports
pub mod Alerts
pub mod Services
use pulseboard.Common.{
  ℕ, ◌+◌, ◌-◌, ◌*◌, String, string_eq, Bool, true, false, not, ◌&&◌, Option, none, some, List, [],
  ◌∷◌, ◌++◌, ltb, leb, length, select, if◌then◌else◌,
}
use pulseboard.Common.Assoc.{lookup, insert}
use pulseboard.Alert.Model.{severity_critical, severity_info, Event}

abbrev pub minute : ℕ
minute = 60000000000

abbrev pub crash_loop_threshold : ℕ
crash_loop_threshold = 3

abbrev pub crash_loop_window : ℕ
crash_loop_window = 5 * minute

abbrev pub crash_loop_recovery_time : ℕ
crash_loop_recovery_time = 10 * minute

abbrev pub crash_loop_buffer_max : ℕ
crash_loop_buffer_max = 30 * minute

pub record ServiceFailureState : Type 0 where
  pub failures : List ℕ
  pub in_crash_loop : Bool
  pub last_failure : ℕ

abbrev pub no_failures : ServiceFailureState
no_failures = record { failures = []; in_crash_loop = false; last_failure = 0 }

-- `t.After(now.Add(-d))`
abbrev pub is_within : ℕ → ℕ → ℕ → Bool
is_within d now t = ltb now (t + d)

-- The loop that prunes, and the one that counts.
abbrev pub prune : ℕ → List ℕ → List ℕ
prune now failures = select (is_within crash_loop_buffer_max now) failures

abbrev pub count : ℕ → List ℕ → ℕ
count now failures = length (select (is_within crash_loop_window now) failures)

-- RecordFailure on the state of one service; the number is the count of an alert that is sent.
unfoldable pub fail : ℕ → ServiceFailureState → ServiceFailureState × Option ℕ
fail now st =
    let failures = prune now (st.failures ++ now ∷ []) in
    let alerts = leb crash_loop_threshold (count now failures) && not st.in_crash_loop in
    (
      record {
        failures = failures;
        in_crash_loop = if alerts then true else st.in_crash_loop;
        last_failure = now;
      },
      if alerts then some (count now failures) else none,
    )

-- One round of CheckRecoveries, and whether the service has recovered.
unfoldable pub settle : ℕ → ServiceFailureState → ServiceFailureState × Bool
settle now st =
    let recovers = st.in_crash_loop && leb crash_loop_recovery_time (now - st.last_failure) in
    (record st { in_crash_loop = if recovers then false else st.in_crash_loop }, recovers)

abbrev pub Detector : Type 0
Detector = List (String × ServiceFailureState)

-- The event that goes to the alert engine, with the text that only people read.
abbrev pub crash_loop_event : (String → ℕ → String) → ℕ → String → ℕ → Event
crash_loop_event text now name n = record {
  source = "swarm";
  alert_type = "crash_loop";
  severity = severity_critical;
  is_recover = false;
  message = text name n;
  entity_type = "swarm_service";
  entity_id = "";
  entity_name = name;
  details = some (text name n);
  timestamp = now;
}

abbrev pub recovery_event : (String → ℕ → String) → ℕ → String → Event
recovery_event text now id = record {
  source = "swarm";
  alert_type = "crash_loop";
  severity = severity_info;
  is_recover = true;
  message = text id 0;
  entity_type = "swarm_service";
  entity_id = "";
  entity_name = id;
  details = none;
  timestamp = now;
}

abbrev pub or_new : Option ServiceFailureState → ServiceFailureState
or_new none = no_failures
or_new (some st) = st

abbrev alert_if : (String → ℕ → String) → ℕ → String → Option ℕ → List Event
alert_if text now name none = []
alert_if text now name (some n) = crash_loop_event text now name n ∷ []

unfoldable pub record_failure :
    (String → ℕ → String) → ℕ → String → String → Detector → Detector × List Event
unfolding fail
record_failure text now id name d =
    let (st, alerts) = fail now (or_new (lookup id d)) in
    (insert id st d, alert_if text now name alerts)

-- The loop over the map.
unfoldable pub check_recoveries : (String → ℕ → String) → ℕ → Detector → Detector × List Event
unfolding settle
check_recoveries text now [] = ([], [])
check_recoveries text now ((id, st) ∷ d) =
    let (st', recovers) = settle now st in
    let (d', events) = check_recoveries text now d in
    ((id, st') ∷ d', if recovers then recovery_event text now id ∷ events else events)

abbrev pub or_false : Option ServiceFailureState → Bool
or_false none = false
or_false (some st) = st.in_crash_loop

unfoldable pub is_crash_looping : String → Detector → Bool
is_crash_looping id d = or_false (lookup id d)
