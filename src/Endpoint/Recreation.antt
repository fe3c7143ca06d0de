-- ===== src/Endpoint/Recreation.antt =====
-- An endpoint whose container is removed and created again while it is alerting.
use pulseboard.Common.{
  ℕ, String, string_eq, Bool, true, false, not, List, [], ◌∷◌, ◌≡◌, refl, ◌∙◌, sym, ap, arith, all,
  select,
}
use pulseboard.Alert.Model.{Event, key_eq}
use pulseboard.Alert.Deps.{Deps}
use pulseboard.Alert.Engine.{Engine, run, resolve_by_entity}
use pulseboard.Alert.Engine.Invariant.{IsKeyed}
use pulseboard.Alert.Engine.Refinement.{is_some}
use pulseboard.Alert.Engine.EntityRemoval.{resolve_by_entity-IsKeyed, resolve_by_entity-view}
use pulseboard.Alert.Engine.Standing.{
  stands, events_of, opened, opened-append, run-opened, opened-select,
}
use pulseboard.Endpoint.{
  is_alerting, CheckResult, Monitor, Faults, Report, evaluate_check_result, trust_events,
  threshold_events, evaluate_alerts, process_check_result, process_all, deactivate_endpoint,
  upsert_endpoint,
}
use pulseboard.Endpoint.Alerts.{endpoint_key, is_of, key-is_of}

-- A failing result of an endpoint that is alerting sends no alert on it.
process_check_result-silent :
    (f : Faults) (report : Report) (r : CheckResult) (m : Monitor) (id : String)
    → r.success ≡ false
    → is_alerting m.row.alert_state ≡ true
    → (is_alerting (process_check_result f report r m).monitor.row.alert_state ≡ true)
      × (opened (endpoint_key id) false (process_check_result f report r m).events ≡ false)
unfolding process_check_result evaluate_alerts evaluate_check_result trust_events threshold_events
process_check_result-silent f report r m id s a = ground (arith, s, a)

process_all-silent :
    (steps : List (Faults × Report × CheckResult)) (m : Monitor) (id : String)
    → all (λ step. not step.2.success) steps ≡ true
    → is_alerting m.row.alert_state ≡ true
    → opened (endpoint_key id) false (process_all steps m).1 ≡ false
unfolding process_all
process_all-silent [] m id s a = refl
process_all-silent ((f, report, r) ∷ steps) m id s a =
    let done = process_check_result f report r m in
    let (still, quiet) = process_check_result-silent f report r m id (ground (arith, s)) a in
    opened-append (endpoint_key id) false done.events (process_all steps done.monitor).1
    ∙ ap (λ b. opened (endpoint_key id) b (process_all steps done.monitor).1) quiet
    ∙ process_all-silent steps done.monitor id (ground (arith, s)) still

-- The row once its container is destroyed and created again, and the engine after the callback of the
-- removed endpoint.
abbrev pub recreated : Bool → String → ℕ → ℕ → Monitor → Monitor
recreated fails target failures successes m = record m {
  row = upsert_endpoint target failures successes (deactivate_endpoint fails m.row);
}

abbrev pub removed : Deps → (String → Bool) → ℕ → String → Engine → Engine
removed d updated now id e = (resolve_by_entity d updated now "endpoint" id e).0

-- An endpoint that is alerting when its container is destroyed and created again stays without an
-- alert on its failures: the removal resolves the alert in the engine, the row keeps saying alerting,
-- and however often the endpoint fails afterwards, if the engine receives, of this endpoint, exactly
-- the events that its results make, no such alert is active.
pub recreated-stands :
    (fails : Bool) (target : String) (failures successes : ℕ)
    (steps : List (Faults × Report × CheckResult)) (m : Monitor) (d : Deps)
    (updated : String → Bool) (now : ℕ) (evts : List (Deps × Event)) (e : Engine)
    → IsKeyed e
    → is_alerting m.row.alert_state ≡ true
    → all (λ step. not step.2.success) steps ≡ true
    → select (is_of m.row.id) (events_of evts)
      ≡ (process_all steps (recreated fails target failures successes m)).1
    → stands (run evts (removed d updated now m.row.id e)).0 (endpoint_key m.row.id) ≡ false
unfolding upsert_endpoint deactivate_endpoint
recreated-stands fails target failures successes steps m d updated now evts e h a s q =
    let k = endpoint_key m.row.id in
    let gone = ap is_some (resolve_by_entity-view d updated now k e) in
    ground (
      arith,
      run-opened evts (removed d updated now m.row.id e) k false
          (resolve_by_entity-IsKeyed d updated now "endpoint" m.row.id e h) (ground (arith, gone)),
      sym (
            opened-select (is_of m.row.id) k false (events_of evts)
              (key-is_of m.row.id (events_of evts)))
          ∙ ap (opened k false) q
          ∙ process_all-silent steps (recreated fails target failures successes m) m.row.id s
              (ground (arith, a)),
    )
