-- ===== src/Checks/AlertRuns.antt =====
-- The alert engine on a small installation: one trigger, one silence rule, two channels.
use pulseboard.Common.{
  ◌==◌, ℕ, String, string_eq, true, false, Option, none, some, List, [], ◌∷◌, ◌≡◌, refl, arith,
  ◌&&◌, ◌==◌, if◌then◌else◌, eq_iff, distinct, contains, All,
}
use pulseboard.Common.Assoc.{lookup, insert}
use pulseboard.Alert.Model.{
  active, resolved, Event, Alert, NotificationChannel, AlertTrigger, SilenceRule, ActiveAlertKey,
  key_eq, event_key,
}
use pulseboard.Alert.Csv.{bytes_eq, codes, split_csv, contains_csv}
use pulseboard.Alert.Csv.RoundTrip.{IsItem, join_csv, contains_csv-join_csv}
use pulseboard.Alert.Deps.{Deps, FindsById}
use pulseboard.Alert.Routing.{matches_trigger, enqueue_delivery, dispatch_notifications}
use pulseboard.Alert.Routing.Exact.{
  delivered, enqueued, deliverable, takes, wanted, dispatch_notifications-delivered,
}
use pulseboard.Alert.Silence.{check_silence_rules}
use pulseboard.Alert.Engine.{Engine, new_alert, process_event, reload_active_alerts, run}
use pulseboard.Alert.Engine.Invariant.{IsKeyed, start, run-reload_active_alerts-IsKeyed}
use pulseboard.Alert.Engine.Refinement.{view, is_some, book, stored, process_event-book}
use pulseboard.Alert.Engine.Recovery.{resolved_rows, resolved_hooks, process_event-recovery}

abbrev ops : NotificationChannel
ops = record { id = "ops"; channel_type = "webhook"; url = "https://ops.example"; enabled = true }

abbrev on_critical : AlertTrigger
on_critical = record {
  id = "t1";
  filter_severities = "critical, warning";
  filter_sources = "";
  filter_scopes = "";
  notify_on_resolve = true;
  channel_ids = "ops" ∷ "gone" ∷ "ops" ∷ [];
}

abbrev on_staging : SilenceRule
on_staging = record { id = "s1"; entity_type = ""; entity_id = some "c9"; source = "container" }

abbrev channel_named : String → Option (Option NotificationChannel)
channel_named id = some (if id == "ops" then some ops else none)

abbrev pub desk : Deps
desk = record {
  marshal = λ s. some s;
  store_insert = λ a. some "a1";
  store_escalate = λ id. true;
  list_active = some [];
  silence_rules = some (on_staging ∷ []);
  is_suppressed = λ s t i. some false;
  enabled_triggers = some (on_critical ∷ []);
  route = λ t i s. "ops" ∷ [];
  get_channel = channel_named;
  store_delivery = λ a c. some "d1";
  has_notifier = true;
  has_broadcaster = true;
}

-- Events that the desk answers.
abbrev pub on_desk : List Event → List (Deps × Event)
on_desk [] = []
on_desk (evt ∷ evts) = (desk, evt) ∷ on_desk evts

desk-FindsById : FindsById desk
desk-FindsById = record { at_id = λ id ch h. ground (arith, eq_iff id "ops") }

abbrev pub fired : Event
fired = record {
  source = "container";
  alert_type = "container_down";
  severity = "warning";
  is_recover = false;
  message = "stopped";
  entity_type = "container";
  entity_id = "c1";
  entity_name = "web";
  details = none;
  timestamp = 100;
}

abbrev worse : Event
worse = record fired { severity = "critical" }

abbrev recovered : Event
recovered = record fired { severity = "info"; is_recover = true; timestamp = 200 }

abbrev desk_key : ActiveAlertKey
desk_key = event_key fired

-- "warning, then critical, then warning again": the last is a duplicate.
escalates :
    view (run ((desk, fired) ∷ (desk, worse) ∷ (desk, fired) ∷ []) start).0 desk_key
    ≡ some "critical"
unfolding run process_event lookup insert
escalates = refl

notifies_once : delivered (run ((desk, fired) ∷ (desk, fired) ∷ []) start).1 ≡ "ops" ∷ []
unfolding run process_event lookup insert matches_trigger contains_csv enqueue_delivery
notifies_once = refl

abbrev busy : Engine
busy = (run ((desk, fired) ∷ []) start).0

busy-IsKeyed : IsKeyed busy
unfolding reload_active_alerts
busy-IsKeyed = run-reload_active_alerts-IsKeyed desk ((desk, fired) ∷ []) tt

abbrev item_list : List (List ℕ)
item_list = codes "critical" ∷ codes "info" ∷ []

item_list-IsItem : All IsItem item_list
item_list-IsItem = (
  record { filled = refl; starts = refl; ends = refl; single = refl },
  (record { filled = refl; starts = refl; ends = refl; single = refl }, tt),
)

contains_csv-join_csv_example :
    (split_csv (join_csv 1 item_list) ≡ item_list)
    × (contains_csv (join_csv 1 item_list) (codes "info") ≡ contains item_list (codes "info"))
contains_csv-join_csv_example = contains_csv-join_csv 1 item_list (codes "info") item_list-IsItem

abbrev live : Alert
live = new_alert desk worse active

dispatch_notifications-delivered_example :
    (distinct (delivered (dispatch_notifications desk live live)) ≡ true)
    × ((c : String)
        → contains (delivered (dispatch_notifications desk live live)) c
          ≡ (wanted desk live c && deliverable desk c))
    × (distinct (enqueued (dispatch_notifications desk live live)) ≡ true)
    × ((c : String)
        → contains (enqueued (dispatch_notifications desk live live)) c
          ≡ (wanted desk live c && (deliverable desk c && takes desk live c)))
dispatch_notifications-delivered_example =
    dispatch_notifications-delivered desk live live desk-FindsById refl

run-reload_active_alerts-IsKeyed_example :
    IsKeyed (run ((desk, fired) ∷ (desk, recovered) ∷ []) (reload_active_alerts desk start)).0
run-reload_active_alerts-IsKeyed_example =
    run-reload_active_alerts-IsKeyed desk ((desk, fired) ∷ (desk, recovered) ∷ []) tt

process_event-book_example : view (process_event desk worse busy).0 desk_key ≡ (
    if event_key worse == desk_key
    then book false
        (check_silence_rules desk worse)
        (stored desk worse)
        "critical"
        (view busy desk_key)
    else view busy desk_key)
process_event-book_example = process_event-book desk worse busy desk_key busy-IsKeyed

duplicate_keeps :
    view (process_event desk fired busy).0 (event_key fired) ≡ view busy (event_key fired)
unfolding run process_event lookup insert
duplicate_keeps = refl

abbrev live_one : Alert
live_one = record (new_alert desk fired active) { id = "a1" }

busy_entry : lookup (event_key recovered) busy.active_alerts ≡ some live_one
unfolding run process_event lookup insert
busy_entry = refl

process_event-recovery_example :
    (view (process_event desk recovered busy).0 (event_key recovered) ≡ none)
    × (resolved_rows (process_event desk recovered busy).1 ≡ (
        if is_some (desk.store_insert (new_alert desk recovered resolved)) then "a1" ∷ [] else []))
    × (resolved_hooks (process_event desk recovered busy).1 ≡ (
        if is_some (desk.store_insert (new_alert desk recovered resolved)) then "a1" ∷ [] else []))
process_event-recovery_example =
    process_event-recovery desk recovered live_one busy busy-IsKeyed refl busy_entry
