-- ===== src/Alert/Routing.antt =====
-- matchesTrigger, dispatchNotifications and enqueueDelivery of internal/alert/engine.go.
pub mod Distinct
pub mod Exact
use pulseboard.Common.{
  String, string_eq, Bool, true, false, not, ◌&&◌, Option, none, some, List, [], ◌∷◌, ◌++◌, ◌==◌,
  contains, if◌then◌else◌,
}
use pulseboard.Alert.Model.{AlertStatus, resolved, Alert, NotificationChannel, AlertTrigger}
use pulseboard.Alert.Csv.{codes, contains_csv}
use pulseboard.Alert.Deps.{Deps, Effect, insert_delivery, enqueue}

abbrev is_resolved : AlertStatus → Bool
is_resolved resolved = true
is_resolved _ = false

-- Each test of the code leaves with `false`.
unfoldable pub matches_trigger : AlertTrigger → Alert → Bool
matches_trigger t a =
    if is_resolved a.status && not t.notify_on_resolve
    then false
    else if not (t.filter_severities == "")
        && not (contains_csv (codes t.filter_severities) (codes a.severity))
    then false
    else if not (t.filter_sources == "")
        && not (contains_csv (codes t.filter_sources) (codes a.source))
    then false
    else if not (t.filter_scopes == "")
        && not
            (contains_csv (codes t.filter_scopes) (codes a.entity_type ++ b':' ∷ codes a.entity_id))
    then false
    else true

unfoldable pub enqueue_delivery : Deps → NotificationChannel → Alert → List Effect
enqueue_delivery d ch a =
    insert_delivery a.id ch.id
    ∷ elim (d.store_delivery a.id ch.id) [ none ↦ [] | some id ↦ enqueue id ch a ∷ [] ]

-- The set `dispatched`, and the calls so far.
pub record Dispatch : Type 0 where
  pub dispatched : List String
  pub effects : List Effect

-- What GetChannel answered: an error, no channel, or a channel, which must be enabled.
unfoldable pub on_channel :
    Deps → Alert → Dispatch → String → Option (Option NotificationChannel) → Dispatch
on_channel d payload s ch_id none = s
on_channel d payload s ch_id (some none) = s
on_channel d payload s ch_id (some (some ch)) =
    if ch.enabled
    then record {
      dispatched = ch_id ∷ s.dispatched;
      effects = s.effects ++ enqueue_delivery d ch payload;
    }
    else s

-- The body of both inner loops.
unfoldable pub dispatch_one : Deps → Alert → Dispatch → String → Dispatch
unfolding on_channel
dispatch_one d payload s ch_id =
    if contains s.dispatched ch_id then s else on_channel d payload s ch_id (d.get_channel ch_id)

unfoldable pub dispatch_ids : Deps → Alert → Dispatch → List String → Dispatch
unfolding dispatch_one
dispatch_ids d payload s [] = s
dispatch_ids d payload s (ch_id ∷ ids) = dispatch_ids d payload (dispatch_one d payload s ch_id) ids

unfoldable pub dispatch_triggers : Deps → Alert → Alert → Dispatch → List AlertTrigger → Dispatch
unfolding dispatch_ids
dispatch_triggers d route_by payload s [] = s
dispatch_triggers d route_by payload s (t ∷ ts) =
    dispatch_triggers d route_by payload
      (if matches_trigger t route_by then dispatch_ids d payload s t.channel_ids else s) ts

-- A failed ListEnabledTriggers is logged, and leaves no trigger.
abbrev pub or_empty {ℓ} : {A : Type ℓ} → Option (List A) → List A
or_empty none = []
or_empty (some l) = l

unfoldable pub dispatch_notifications : Deps → Alert → Alert → List Effect
unfolding dispatch_triggers dispatch_ids
dispatch_notifications d route_by payload =
    if d.has_notifier
    then (let s =
          dispatch_triggers d route_by payload (record { dispatched = []; effects = [] })
            (or_empty d.enabled_triggers) in
        (dispatch_ids d payload s
          (d.route route_by.entity_type route_by.entity_id route_by.severity)).effects)
    else []
