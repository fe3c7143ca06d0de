-- ===== src/Endpoint/Alerts.antt =====
-- The alert of an endpoint in the alert engine.
use mathlib.Core.Path.{subst}
use pulseboard.Common.{
  String, string_eq, Bool, true, false, not, ◌&&◌, ◌||◌, List, [], ◌∷◌, ◌==◌, ◌≡◌, refl, ◌∙◌, sym,
  ap, arith, all, select, ==_refl,
}
use pulseboard.Alert.Model.{Event, ActiveAlertKey, key_eq, event_key}
use pulseboard.Alert.Deps.{Deps}
use pulseboard.Alert.Engine.{Engine, run}
use pulseboard.Alert.Engine.Invariant.{IsKeyed}
use pulseboard.Alert.Engine.Standing.{
  stands, events_of, opened, opened-append, run-opened, opened-select,
}
use pulseboard.Endpoint.{
  is_alerting, CheckResult, Monitor, Faults, Report, evaluate_check_result, trust_events,
  threshold_events, evaluate_alerts, process_check_result, process_all,
}

abbrev pub endpoint_key : String → ActiveAlertKey
endpoint_key id = record {
  source = "endpoint";
  alert_type = "consecutive_failure";
  entity_type = "endpoint";
  entity_id = id;
}

-- The events of one endpoint, among those of everything else.
abbrev pub is_of : String → Event → Bool
is_of id evt = evt.source == "endpoint" && (evt.entity_type == "endpoint" && evt.entity_id == id)

pub key-is_of :
    (id : String) (evts : List Event)
    → all (λ evt. is_of id evt || not (event_key evt == endpoint_key id)) evts ≡ true
key-is_of id [] = refl
key-is_of id (evt ∷ evts) = ground (arith, key-is_of id evts)

-- One result: the alert that its events leave open, and the state in the row.
process_check_result-opened :
    (f : Faults) (report : Report) (r : CheckResult) (m : Monitor)
    → f.update_alert_state ≡ false
    → ((process_check_result f report r m).monitor.row.id ≡ m.row.id)
      × (opened
            (endpoint_key m.row.id)
            (is_alerting m.row.alert_state)
            (process_check_result f report r m).events
          ≡ is_alerting (process_check_result f report r m).monitor.row.alert_state)
unfolding process_check_result evaluate_alerts evaluate_check_result trust_events threshold_events
process_check_result-opened f report r m w = ground (arith, w, ==_refl m.row.id)

process_all-opened :
    (steps : List (Faults × Report × CheckResult)) (m : Monitor) (id : String)
    → all (λ step. not step.0.update_alert_state) steps ≡ true
    → m.row.id ≡ id
    → opened (endpoint_key id) (is_alerting m.row.alert_state) (process_all steps m).1
      ≡ is_alerting (process_all steps m).0.row.alert_state
unfolding process_all
process_all-opened [] m id w p = refl
process_all-opened ((f, report, r) ∷ steps) m id w p =
    let done = process_check_result f report r m in
    let (same, now) = process_check_result-opened f report r m (ground (arith, w)) in
    opened-append (endpoint_key id) (is_alerting m.row.alert_state) done.events
      (process_all steps done.monitor).1
    ∙ ap (λ b. opened (endpoint_key id) b (process_all steps done.monitor).1)
        (subst
          (λ id.
            opened (endpoint_key id) (is_alerting m.row.alert_state) done.events
            ≡ is_alerting done.monitor.row.alert_state)
          p now)
    ∙ process_all-opened steps done.monitor id (ground (arith, w)) (same ∙ p)

-- An endpoint that is not alerting has no active alert on its failures: if the store takes every new
-- alert state, whatever else fails, and the engine receives, of this endpoint, exactly the events
-- that its results make, among any others, then such an alert is active after them only if the row
-- says alerting, given that this holds before them.
pub process_all-alerting :
    (steps : List (Faults × Report × CheckResult)) (m : Monitor) (evts : List (Deps × Event))
    (e : Engine)
    → IsKeyed e
    → all (λ step. not step.0.update_alert_state) steps ≡ true
    → select (is_of m.row.id) (events_of evts) ≡ (process_all steps m).1
    → (not (stands e (endpoint_key m.row.id)) || is_alerting m.row.alert_state) ≡ true
    → (not (stands (run evts e).0 (endpoint_key m.row.id))
        || is_alerting (process_all steps m).0.row.alert_state)
      ≡ true
process_all-alerting steps m evts e h w q l =
    let k = endpoint_key m.row.id in
    let b = is_alerting m.row.alert_state in
    subst (λ b. (not (stands (run evts e).0 k) || b) ≡ true)
      (sym (
          opened-select (is_of m.row.id) k b (events_of evts) (key-is_of m.row.id (events_of evts)))
        ∙ ap (opened k b) q
        ∙ process_all-opened steps m m.row.id w refl)
      (run-opened evts e k b h l)
