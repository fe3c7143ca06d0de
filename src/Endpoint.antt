-- ===== src/Endpoint.antt =====
-- internal/endpoint/service.go and internal/alert/endpoint_alerts.go: what the result of a probe does
-- to its endpoint, and the endpoint's callback in internal/app/wiring.go.
pub mod History
pub mod Alerts
pub mod Recreation
use pulseboard.Common.{
  ℕ, suc, ◌+◌, String, string_eq, Bool, true, false, not, ◌&&◌, ◌||◌, Option, none, some, List, [],
  ◌∷◌, ◌++◌, ◌==◌, leb, if◌then◌else◌,
}
use pulseboard.Alert.Model.{severity_critical, severity_warning, severity_info, Event}

pub data EndpointStatus : Type 0 where
  up down degraded unknown : EndpointStatus

pub data AlertState : Type 0 where
  normal alerting : AlertState

abbrev pub is_alerting : AlertState → Bool
is_alerting alerting = true
is_alerting normal = false

abbrev same_status : EndpointStatus → EndpointStatus → Bool
same_status up up = true
same_status down down = true
same_status degraded degraded = true
same_status unknown unknown = true
same_status _ _ = false

pub record Endpoint : Type 0 where
  pub id : String
  pub container_name : String
  pub name : String
  pub target : String
  pub status : EndpointStatus
  pub alert_state : AlertState
  pub consecutive_failures : ℕ
  pub consecutive_successes : ℕ
  pub last_check_at : Option ℕ
  pub last_response_time_ms : ℕ
  pub last_http_status : Option ℕ
  pub last_error : String
  pub failure_threshold : ℕ
  pub recovery_threshold : ℕ
  pub active : Bool

pub record CheckResult : Type 0 where
  pub success : Bool
  pub degraded : Bool
  pub degraded_reason : String
  pub replayed : Bool
  pub response_time_ms : ℕ
  pub http_status : Option ℕ
  pub error_message : String
  pub timestamp : ℕ

-- The rows of one endpoint: itself, and its results from the newest on, here with what their rows
-- leave out.
pub record Monitor : Type 0 where
  pub row : Endpoint
  pub results : List CheckResult

-- Which calls of the store fail while one result is processed.
pub record Faults : Type 0 where
  pub get_endpoint : Bool
  pub update : Bool
  pub insert_result : Bool
  pub reload : Bool
  pub update_alert_state : Bool

-- The times that are read, and the texts that only people read.
pub record Report : Type 0 where
  pub stored_at : ℕ
  pub evaluated_at : ℕ
  pub message : String → Endpoint → CheckResult → String

unfoldable pub status_for_result : CheckResult → EndpointStatus
status_for_result result =
    if result.success && result.degraded then degraded else if result.success then up else down

-- UpdateCheckResult: the columns that the UPDATE sets.
abbrev update_check_result :
    Report → EndpointStatus → AlertState → ℕ → ℕ → CheckResult → Endpoint → Endpoint
update_check_result report status alert_state failures successes result ep = record ep {
  status = status;
  alert_state = alert_state;
  consecutive_failures = failures;
  consecutive_successes = successes;
  last_check_at = some report.stored_at;
  last_response_time_ms = result.response_time_ms;
  last_http_status = result.http_status;
  last_error = result.error_message;
}

-- EvaluateCheckResult: whether it returns an alert or a recovery.
pub data EndpointAlert : Type 0 where
  endpoint_alert endpoint_recovery : EndpointAlert

unfoldable pub evaluate_check_result : Endpoint → CheckResult → Option EndpointAlert
evaluate_check_result ep result =
    if not result.success
    then if leb ep.failure_threshold ep.consecutive_failures && not (is_alerting ep.alert_state)
      then some endpoint_alert
      else none
    else if leb ep.recovery_threshold ep.consecutive_successes && is_alerting ep.alert_state
    then some endpoint_recovery
    else none

abbrev shown_name : Endpoint → String
shown_name ep = if ep.container_name == "" then ep.name else ep.container_name

abbrev endpoint_event : Report → Endpoint → CheckResult → String → String → Bool → ℕ → Event
endpoint_event report ep result alert_type severity is_recover timestamp = record {
  source = "endpoint";
  alert_type = alert_type;
  severity = severity;
  is_recover = is_recover;
  message = report.message alert_type ep result;
  entity_type = "endpoint";
  entity_id = ep.id;
  entity_name = shown_name ep;
  details = some (report.message alert_type ep result);
  timestamp = timestamp;
}

-- The alert callback of wireAlertCallbacks: first what the certificate is worth, then the thresholds.
unfoldable pub trust_events : Report → Endpoint → CheckResult → List Event
trust_events report ep result =
    if result.degraded
    then endpoint_event report ep result "certificate_untrusted" severity_warning false
        result.timestamp
      ∷ []
    else if result.success
    then endpoint_event report ep result "certificate_untrusted" severity_info true result.timestamp
      ∷ []
    else []

unfoldable pub threshold_events :
    Report → Endpoint → CheckResult → Option EndpointAlert → List Event
threshold_events report ep result none = []
threshold_events report ep result (some endpoint_alert) =
    endpoint_event report ep result "consecutive_failure" severity_critical false
      report.evaluated_at
    ∷ []
threshold_events report ep result (some endpoint_recovery) =
    endpoint_event report ep result "consecutive_failure" severity_info true report.evaluated_at
    ∷ []

abbrev state_after : Option EndpointAlert → AlertState → AlertState
state_after none s = s
state_after (some endpoint_alert) s = alerting
state_after (some endpoint_recovery) s = normal

pub data Notice : Type 0 where
  status_changed : EndpointStatus → EndpointStatus → Notice
  alert_notice : EndpointAlert → Notice

abbrev alert_notices : Option EndpointAlert → List Notice
alert_notices none = []
alert_notices (some a) = alert_notice a ∷ []

pub record Outcome : Type 0 where
  pub monitor : Monitor
  pub notices : List Notice
  pub events : List Event

-- The end of ProcessCheckResult: the callback on the endpoint as it is read again, and the new alert
-- state in its row.
unfoldable pub evaluate_alerts :
    Faults → Report → CheckResult → Option EndpointAlert → Monitor → Outcome
unfolding status_for_result trust_events threshold_events
evaluate_alerts f report result alert m =
    let ep = m.row in
    let stored =
      update_check_result report (status_for_result result) (state_after alert ep.alert_state)
        ep.consecutive_failures ep.consecutive_successes result ep in
    if f.reload then record { monitor = m; notices = []; events = [] } else record {
      monitor = elim alert [
        | none ↦ m
        | some a ↦ if f.update_alert_state then m else record m { row = stored }
      ];
      notices = alert_notices alert;
      events = trust_events report ep result ++ threshold_events report ep result alert;
    }

-- The endpoint with the counters of a live result.
abbrev counted : Report → CheckResult → Endpoint → Endpoint
counted report result ep =
    update_check_result report (status_for_result result) ep.alert_state
      (if result.success then 0 else suc ep.consecutive_failures)
      (if result.success then suc ep.consecutive_successes else 0) result ep

unfoldable pub process_check_result : Faults → Report → CheckResult → Monitor → Outcome
unfolding status_for_result evaluate_check_result evaluate_alerts
process_check_result f report result m =
    let m1 = if f.insert_result then m else record m { results = result ∷ m.results } in
    let m2 = if f.update then m1 else record m1 { row = counted report result m.row } in
    let before = m.row.status in
    let now = status_for_result result in
    let last = evaluate_alerts f report result (evaluate_check_result m2.row result) m2 in
    if f.get_endpoint
    then record { monitor = m; notices = []; events = [] }
    else if result.replayed
    then record { monitor = m1; notices = []; events = [] }
    else record {
      monitor = last.monitor;
      notices =
          (if same_status now before then [] else status_changed before now ∷ []) ++ last.notices;
      events = last.events;
    }

unfoldable pub process_all : List (Faults × Report × CheckResult) → Monitor → Monitor × List Event
unfolding process_check_result
process_all [] m = (m, [])
process_all ((f, report, result) ∷ rest) m =
    let done = process_check_result f report result m in
    let (m', events) = process_all rest done.monitor in (m', done.events ++ events)

-- DeactivateEndpoint, which HandleContainerDestroy calls before the callback of a removed endpoint.
unfoldable pub deactivate_endpoint : Bool → Endpoint → Endpoint
deactivate_endpoint fails ep = if fails then ep else record ep { active = false }

-- UpsertEndpoint of a row that is there: the id comes from the names of the container and the label,
-- so a container that is created again gets its old row.
unfoldable pub upsert_endpoint : String → ℕ → ℕ → Endpoint → Endpoint
upsert_endpoint target failure_threshold recovery_threshold ep = record ep {
  target = target;
  failure_threshold = failure_threshold;
  recovery_threshold = recovery_threshold;
  active = true;
}
