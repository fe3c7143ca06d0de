-- ===== src/Alert/Engine.antt =====
-- The Engine of internal/alert/engine.go: one function for each handler, from the state to the new
-- state and the calls made. A map entry is a pointer in Go: where the code changes the alert behind
-- it, the model writes the entry again.
pub mod Invariant
pub mod Refinement
pub mod Notifications
pub mod Recovery
pub mod EntityRemoval
pub mod Standing
use pulseboard.Common.{
  ℕ, String, string_eq, Bool, ◌&&◌, Option, none, some, List, [], ◌∷◌, ◌++◌, ◌==◌, if◌then◌else◌,
}
use pulseboard.Common.Assoc.{lookup, insert, delete, take_where}
use pulseboard.Common.Int.{ltb_ℤ}
use pulseboard.Alert.Model.{
  AlertStatus, active, resolved, silenced, Event, Alert, ActiveAlertKey, key_eq, event_key,
  alert_key, severity_rank,
}
use pulseboard.Alert.Deps.{
  Deps, Topic, alert_fired, alert_silenced, alert_resolved, Effect, insert_alert,
  update_on_escalation, update_status, broadcast, on_alert_created, on_alert_resolved,
}
use pulseboard.Alert.Routing.{dispatch_notifications, or_empty}
use pulseboard.Alert.Silence.{check_silence_rules}

pub record Engine : Type 0 where
  pub active_alerts : List (ActiveAlertKey × Alert)

abbrev pub Outcome : Type 0
Outcome = Engine × List Effect

-- `e.activeAlerts[key] = a`
abbrev pub track : ActiveAlertKey → Alert → Engine → Engine
track key a e = record { active_alerts = insert key a e.active_alerts }

-- The loop of reloadActiveAlerts.
unfoldable pub track_all : List Alert → Engine → Engine
track_all [] e = e
track_all (a ∷ l) e = track_all l (track (alert_key a) a e)

unfoldable pub reload_active_alerts : Deps → Engine → Engine
unfolding track_all
reload_active_alerts d e = track_all (or_empty d.list_active) e

unfoldable pub details_json : Deps → Event → String
details_json d evt = elim evt.details [
  | none ↦ "{}"
  | some details ↦ elim (d.marshal details) [ none ↦ "{}" | some b ↦ b ]
]

abbrev pub send : Deps → Topic → Alert → List Effect
send d topic a = if d.has_broadcaster then broadcast topic a ∷ [] else []

-- The `&Alert{…}` of both handlers, before the store gives it an id.
unfoldable pub new_alert : Deps → Event → AlertStatus → Alert
unfolding details_json
new_alert d evt status = record {
  id = "";
  source = evt.source;
  alert_type = evt.alert_type;
  severity = evt.severity;
  status = status;
  message = evt.message;
  entity_type = evt.entity_type;
  entity_id = evt.entity_id;
  entity_name = evt.entity_name;
  details = details_json d evt;
  resolved_by_id = none;
  fired_at = evt.timestamp;
  resolved_at = none;
}

-- The alert behind the entry, refreshed to the escalating event.
unfoldable pub refreshed : Deps → Alert → Event → Alert
unfolding details_json
refreshed d existing evt = record existing {
  severity = evt.severity;
  message = evt.message;
  entity_name = evt.entity_name;
  details = details_json d evt;
}

unfoldable pub escalate_alert : Deps → Alert → Event → Engine → Outcome
unfolding refreshed dispatch_notifications
escalate_alert d existing evt e =
    let a = refreshed d existing evt in
    let e' = track (event_key evt) a e in
    let call = update_on_escalation a.id evt.severity evt.message evt.entity_name a.details in
    if d.store_escalate a.id
    then (
      track (alert_key a) a e',
      call ∷ (send d alert_fired a ++ on_alert_created a ∷ dispatch_notifications d a a),
    )
    else (e', call ∷ [])

-- The rest of processEvent once the store has answered InsertAlert.
unfoldable pub after_insert : Deps → Event → Bool → Alert → Option String → Engine → Outcome
after_insert d evt quiet a none e = (e, [])
after_insert d evt quiet a (some id) e =
    let a' = record a { id = id } in
    if quiet then (e, send d alert_silenced a') else (
      track (event_key evt) a' e,
      send d alert_fired a' ++ on_alert_created a' ∷ dispatch_notifications d a' a',
    )

unfoldable pub fire_new : Deps → Event → Engine → Outcome
unfolding new_alert check_silence_rules after_insert
fire_new d evt e =
    let quiet = check_silence_rules d evt in
    let a = new_alert d evt (if quiet then silenced else active) in
    let (e', calls) = after_insert d evt quiet a (d.store_insert a) e in
    (e', insert_alert a ∷ calls)

-- The dedup of processEvent: only a higher severity goes through.
unfoldable pub on_existing : Deps → Event → Option Alert → Engine → Outcome
unfolding escalate_alert fire_new severity_rank
on_existing d evt none e = fire_new d evt e
on_existing d evt (some existing) e =
    if ltb_ℤ (severity_rank existing.severity) (severity_rank evt.severity)
    then escalate_alert d existing evt e
    else (e, [])

-- The alert that was active, with the fields that the recovery sets.
abbrev pub closed : Event → Alert → String → Alert
closed evt a recovery_id = record a {
  status = resolved;
  resolved_at = some evt.timestamp;
  resolved_by_id = some recovery_id;
}

-- It is routed as it is, and reads as the recovery.
abbrev pub recovery_payload : Event → Alert → Alert
recovery_payload evt a = record a { message = evt.message; severity = evt.severity }

-- The rest of processRecovery once the store has answered InsertAlert: `a` is the alert that was
-- active.
unfoldable pub after_recovery_insert : Deps → Event → Alert → Option String → List Effect
unfolding dispatch_notifications
after_recovery_insert d evt a none = []
after_recovery_insert d evt a (some recovery_id) =
    let a' = closed evt a recovery_id in
    update_status a.id resolved evt.timestamp (some recovery_id)
    ∷ on_alert_resolved a.id evt.timestamp
    ∷ (send d alert_resolved a' ++ dispatch_notifications d a' (recovery_payload evt a'))

unfoldable pub on_recovery : Deps → Event → Option Alert → Engine → Outcome
unfolding new_alert after_recovery_insert
on_recovery d evt none e = (e, [])
on_recovery d evt (some a) e =
    let recovery = new_alert d evt resolved in
    (
      record { active_alerts = delete (event_key evt) e.active_alerts },
      insert_alert recovery ∷ after_recovery_insert d evt a (d.store_insert recovery),
    )

unfoldable pub process_event : Deps → Event → Engine → Outcome
unfolding on_existing on_recovery
process_event d evt e =
    if evt.is_recover
    then on_recovery d evt (lookup (event_key evt) e.active_alerts) e
    else on_existing d evt (lookup (event_key evt) e.active_alerts) e

-- The loop of Start: each event meets the answers that its calls get.
unfoldable pub run : List (Deps × Event) → Engine → Outcome
run [] e = (e, [])
run ((d, evt) ∷ rest) e =
    let (e', calls) = process_event d evt e in let (e'', more) = run rest e' in (e'', calls ++ more)

abbrev pub names_entity : String → String → ActiveAlertKey → Bool
names_entity entity_type entity_id key =
    key.entity_type == entity_type && key.entity_id == entity_id

-- `updated` tells whether UpdateAlertStatus of an id succeeds.
unfoldable pub resolve_all : Deps → (String → Bool) → ℕ → List Alert → List Effect
resolve_all d updated now [] = []
resolve_all d updated now (a ∷ l) =
    update_status a.id resolved now none
    ∷ ((if updated a.id
          then on_alert_resolved a.id now
            ∷ send d alert_resolved (record a { status = resolved; resolved_at = some now })
          else [])
        ++ resolve_all d updated now l)

unfoldable pub resolve_by_entity : Deps → (String → Bool) → ℕ → String → String → Engine → Outcome
unfolding resolve_all
resolve_by_entity d updated now t i e =
    let (kept, to_resolve) = take_where (names_entity t i) e.active_alerts in
    (record { active_alerts = kept }, resolve_all d updated now to_resolve)
