-- ===== src/Security/Insights/Discovery.antt =====
-- The callback that internal/app/wiring.go sets on the service, the severity of its events
-- (internal/app/security.go), and what a discovery of internal/app/lifecycle.go does with each
-- container.
use pulseboard.Common.{
  ℕ, String, string_eq, true, false, some, List, [], ◌∷◌, ◌++◌, ◌==◌, if◌then◌else◌,
}
use pulseboard.Alert.Model.{severity_critical, severity_warning, severity_info, Event, key_eq}
use pulseboard.Security.Insights as Insights
use pulseboard.Security.Insights.{
  Insight, highest_severity, Types, type_set, has_change, Service, Call, on_alert, on_changed,
  on_resolved, or_empty, is_empty, call_if, calls, update_container,
}
use pulseboard.Security.Insights.Docker.{DockerSecurityConfig, analyze_docker}

abbrev pub map_security_severity : String → String
map_security_severity s =
    if s == Insights.severity_critical
    then severity_critical
    else (if s == Insights.severity_high
        then severity_warning
        else (if s == Insights.severity_medium then severity_info else severity_info))

-- The texts that only people read.
pub record Texts : Type 0 where
  pub resolved : String → String
  pub message : List Insight → String
  pub details : List Insight → String

abbrev pub dangerous_event : Texts → ℕ → String → String → List Insight → Event
dangerous_event texts now id name insights = record {
  source = "security";
  alert_type = "dangerous_configuration";
  severity = map_security_severity (highest_severity insights);
  is_recover = false;
  message = texts.message insights;
  entity_type = "container";
  entity_id = id;
  entity_name = name;
  details = some (texts.details insights);
  timestamp = now;
}

abbrev pub resolved_event : Texts → ℕ → String → String → Event
resolved_event texts now id name = record {
  source = "security";
  alert_type = "dangerous_configuration";
  severity = severity_info;
  is_recover = true;
  message = texts.resolved name;
  entity_type = "container";
  entity_id = id;
  entity_name = name;
  details = some "";
  timestamp = now;
}

-- What the callbacks send to the alert engine; the others go to the browser.
abbrev pub alert_events : Texts → ℕ → List Call → List Event
alert_events texts now [] = []
alert_events texts now (on_alert id name insights is_recover ∷ rest) =
    (if is_recover
      then resolved_event texts now id name
      else dangerous_event texts now id name insights)
    ∷ alert_events texts now rest
alert_events texts now (on_changed _ _ _ _ _ ∷ rest) = alert_events texts now rest
alert_events texts now (on_resolved _ _ ∷ rest) = alert_events texts now rest

-- One container of a discovery: what internal/app/lifecycle.go does with its settings.
pub record Sync : Type 0 where
  pub id : String
  pub name : String
  pub cfg : DockerSecurityConfig
  pub now : ℕ

unfoldable pub sync_security : Texts → Sync → Service → Service × List Event
sync_security texts o s =
    let (after, calls) = update_container o.id o.name (analyze_docker o.id o.name o.cfg o.now) s in
    (after, alert_events texts o.now calls)

unfoldable pub sync_all : Texts → List Sync → Service → Service × List Event
sync_all texts [] s = (s, [])
sync_all texts (o ∷ syncs) s =
    let done = sync_security texts o s in
    let rest = sync_all texts syncs done.0 in (rest.0, done.1 ++ rest.1)
