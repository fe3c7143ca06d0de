-- ===== src/Heartbeat/Model.antt =====
-- internal/heartbeat/model.go, and the rows of internal/store/heartbeats.go.
-- A time is a number of milliseconds, as Go's duration of a run is; a row keeps whole seconds.
use pulseboard.Common.{
  ℕ, ◌+◌, ◌*◌, ◌/◌, String, Bool, true, false, Option, none, some, List, [], ◌∷◌, if◌then◌else◌,
}

pub data HeartbeatStatus : Type 0 where
  fresh up down started paused : HeartbeatStatus

pub data AlertState : Type 0 where
  normal alerting : AlertState

pub data PingType : Type 0 where
  success start exit_code : PingType

pub data ExecutionOutcome : Type 0 where
  succeeded failed timeout in_progress : ExecutionOutcome

abbrev pub is_started : HeartbeatStatus → Bool
is_started started = true
is_started _ = false

abbrev pub is_down : HeartbeatStatus → Bool
is_down down = true
is_down _ = false

abbrev pub is_alerting : AlertState → Bool
is_alerting alerting = true
is_alerting normal = false

abbrev pub is_in_progress : ExecutionOutcome → Bool
is_in_progress in_progress = true
is_in_progress _ = false

abbrev pub same_status : HeartbeatStatus → HeartbeatStatus → Bool
same_status fresh fresh = true
same_status up up = true
same_status down down = true
same_status started started = true
same_status paused paused = true
same_status _ _ = false

pub record Heartbeat : Type 0 where
  pub id : String
  pub name : String
  pub status : HeartbeatStatus
  pub alert_state : AlertState
  pub interval_seconds : ℕ
  pub grace_seconds : ℕ
  pub last_ping_at : Option ℕ
  pub next_deadline_at : Option ℕ
  pub current_run_started_at : Option ℕ
  pub last_exit_code : Option ℕ
  pub last_duration_ms : Option ℕ
  pub consecutive_failures : ℕ
  pub consecutive_successes : ℕ
  pub active : Bool

pub record HeartbeatPing : Type 0 where
  pub ping_type : PingType
  pub code : Option ℕ
  pub payload : Option (List ℕ)
  pub timestamp : ℕ

pub record HeartbeatExecution : Type 0 where
  pub started_at : Option ℕ
  pub completed_at : Option ℕ
  pub duration_ms : Option ℕ
  pub code : Option ℕ
  pub outcome : ExecutionOutcome
  pub payload : Option (List ℕ)

-- The rows of one heartbeat: itself, and its executions and pings from the newest on.
pub record Monitor : Type 0 where
  pub row : Heartbeat
  pub executions : List HeartbeatExecution
  pub pings : List HeartbeatPing

abbrev pub max_payload_bytes : ℕ
max_payload_bytes = 10240

-- time.Unix(t.Unix(), 0)
abbrev pub in_seconds : ℕ → ℕ
in_seconds t = t / 1000 * 1000

abbrev pub in_seconds? : Option ℕ → Option ℕ
in_seconds? none = none
in_seconds? (some t) = some (in_seconds t)

-- now.Add(time.Duration(h.IntervalSeconds+h.GraceSeconds) * time.Second)
abbrev pub deadline_from : ℕ → Heartbeat → ℕ
deadline_from now h = now + (h.interval_seconds + h.grace_seconds) * 1000

-- UpdateHeartbeatState: the times go into the row as seconds.
unfoldable pub update_heartbeat_state : Heartbeat → Heartbeat
update_heartbeat_state h = record h {
  last_ping_at = in_seconds? h.last_ping_at;
  next_deadline_at = in_seconds? h.next_deadline_at;
  current_run_started_at = in_seconds? h.current_run_started_at;
}

-- GetCurrentExecution: the newest execution that is in progress.
unfoldable pub get_current_execution : List HeartbeatExecution → Option HeartbeatExecution
get_current_execution [] = none
get_current_execution (x ∷ xs) =
    let older = get_current_execution xs in if is_in_progress x.outcome then some x else older

-- UpdateExecution: the columns that the UPDATE sets, on the newest row in progress. The service
-- calls it with no other id.
unfoldable pub update_execution :
    (HeartbeatExecution → HeartbeatExecution) → List HeartbeatExecution → List HeartbeatExecution
update_execution change [] = []
update_execution change (x ∷ xs) =
    let rest = update_execution change xs in
    if is_in_progress x.outcome then change x ∷ xs else x ∷ rest

-- Which calls of the store fail during one operation.
pub record Faults : Type 0 where
  pub insert_ping : Bool
  pub get_execution : Bool
  pub update_execution : Bool
  pub insert_execution : Bool
  pub update_state : Bool
  -- LicenseChecker.CanStorePayload
  pub can_store_payload : Bool

pub data Failure : Type 0 where
  heartbeat_not_found invalid_exit_code invalid_input store_failed : Failure

-- What the event and the alert callbacks are told.
pub data Notice : Type 0 where
  ping_received : PingType → Notice
  status_changed : HeartbeatStatus → HeartbeatStatus → Notice
  recovery_event : Notice
  alert_event : Notice
  alert_callback : Notice
  recovery_callback : Notice
