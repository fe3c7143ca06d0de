-- ===== src/Alert/Engine/Invariant.antt =====
-- What holds of the engine's map between two events.
use pulseboard.Common.{
  String, string_eq, Bool, true, false, Option, none, some, List, [], ◌∷◌, ◌≡◌, refl, arith,
  if◌then◌else◌, Bool-cases, inl, inr, All,
}
use pulseboard.Common.Assoc.{lookup, delete, lookup-insert, lookup-delete}
use pulseboard.Alert.Model.{
  active, silenced, Event, Alert, ActiveAlertKey, key_eq, key_beq_iff, event_key, alert_key,
  severity_rank,
}
use pulseboard.Alert.Silence.{check_silence_rules}
use pulseboard.Common.Int.{ltb_ℤ}
use pulseboard.Alert.Routing.{or_empty}
use pulseboard.Alert.Deps.{Deps}
use pulseboard.Alert.Engine.{
  Engine, track, track_all, reload_active_alerts, new_alert, escalate_alert, after_insert, fire_new,
  on_existing, on_recovery, process_event, run,
}

-- Each entry is an active alert that stands under its own key.
pub record IsKeyed (e : Engine) : Type 0 where
  pub at_key :
      (k : ActiveAlertKey) (a : Alert)
      → lookup k e.active_alerts ≡ some a
      → (alert_key a ≡ k) × (a.status ≡ active)

pub track-IsKeyed :
    (k : ActiveAlertKey) (a : Alert) (e : Engine)
    → alert_key a ≡ k
    → a.status ≡ active
    → IsKeyed e
    → IsKeyed (track k a e)
track-IsKeyed k a e p q h = record {
  at_key =
      λ j b f. ground (arith, lookup-insert k j a e.active_alerts, key_beq_iff k j, h.at_key j b);
}

delete-IsKeyed :
    (k : ActiveAlertKey) (e : Engine)
    → IsKeyed e
    → IsKeyed (record { active_alerts = delete k e.active_alerts })
delete-IsKeyed k e h = record {
  at_key = λ j b f. ground (arith, lookup-delete k j e.active_alerts, h.at_key j b);
}

escalate_alert-IsKeyed :
    (d : Deps) (a : Alert) (evt : Event) (e : Engine)
    → alert_key a ≡ event_key evt
    → a.status ≡ active
    → IsKeyed e
    → IsKeyed (escalate_alert d a evt e).0
unfolding escalate_alert
escalate_alert-IsKeyed d a evt e p q h = elim (Bool-cases (d.store_escalate a.id)) [
  | inl t ↦ simp t (track-IsKeyed _ _ _ refl q (track-IsKeyed _ _ _ p q h))
  | inr f ↦ simp f (track-IsKeyed _ _ _ p q h)
]

after_insert-IsKeyed :
    (d : Deps) (evt : Event) (quiet : Bool) (a : Alert) (o : Option String) (e : Engine)
    → alert_key a ≡ event_key evt
    → (quiet ≡ false → a.status ≡ active)
    → IsKeyed e
    → IsKeyed (after_insert d evt quiet a o e).0
unfolding after_insert
after_insert-IsKeyed d evt quiet a none e p q h = h
after_insert-IsKeyed d evt true a (some id) e p q h = h
after_insert-IsKeyed d evt false a (some id) e p q h = track-IsKeyed _ _ _ p (q refl) h

fire_new-IsKeyed : (d : Deps) (evt : Event) (e : Engine) → IsKeyed e → IsKeyed (fire_new d evt e).0
unfolding fire_new
fire_new-IsKeyed d evt e h =
    after_insert-IsKeyed d evt (check_silence_rules d evt)
      (new_alert d evt (if check_silence_rules d evt then silenced else active)) _ e refl
      (λ q. rw q) h

on_existing-IsKeyed :
    (d : Deps) (evt : Event) (o : Option Alert) (e : Engine)
    → lookup (event_key evt) e.active_alerts ≡ o
    → IsKeyed e
    → IsKeyed (on_existing d evt o e).0
unfolding on_existing
on_existing-IsKeyed d evt none e p h = fire_new-IsKeyed d evt e h
on_existing-IsKeyed d evt (some a) e p h =
    elim (Bool-cases (ltb_ℤ (severity_rank a.severity) (severity_rank evt.severity))) [
      | inl t ↦
          let (k, s) = h.at_key (event_key evt) a p in
          simp t (escalate_alert-IsKeyed d a evt e k s h)
      | inr f ↦ simp f h
    ]

on_recovery-IsKeyed :
    (d : Deps) (evt : Event) (o : Option Alert) (e : Engine)
    → IsKeyed e
    → IsKeyed (on_recovery d evt o e).0
unfolding on_recovery
on_recovery-IsKeyed d evt none e h = h
on_recovery-IsKeyed d evt (some a) e h = delete-IsKeyed (event_key evt) e h

pub process_event-IsKeyed :
    (d : Deps) (evt : Event) (e : Engine) → IsKeyed e → IsKeyed (process_event d evt e).0
unfolding process_event
process_event-IsKeyed d evt e h = elim (Bool-cases evt.is_recover) [
  | inl t ↦ simp t (on_recovery-IsKeyed d evt _ e h)
  | inr f ↦ simp f (on_existing-IsKeyed d evt _ e refl h)
]

pub run-IsKeyed : (evts : List (Deps × Event)) (e : Engine) → IsKeyed e → IsKeyed (run evts e).0
unfolding run
run-IsKeyed [] e h = h
run-IsKeyed ((d, evt) ∷ evts) e h =
    run-IsKeyed evts (process_event d evt e).0 (process_event-IsKeyed d evt e h)

track_all-IsKeyed :
    (l : List Alert) (e : Engine)
    → All (λ a. a.status ≡ active) l
    → IsKeyed e
    → IsKeyed (track_all l e)
unfolding track_all
track_all-IsKeyed [] e s h = h
track_all-IsKeyed (a ∷ l) e s h = track_all-IsKeyed l _ s.1 (track-IsKeyed _ a e refl s.0 h)

abbrev pub start : Engine
start = record { active_alerts = [] }

pub start-IsKeyed : IsKeyed start
unfolding lookup
start-IsKeyed = record { at_key = λ k a p. cc }

-- An engine that starts with the active alerts of the store, whose status is "active", and then
-- processes any events (fired or recovered, silenced or not, whatever the stores answer) holds
-- under each key only an alert that is active and has that key.
pub run-reload_active_alerts-IsKeyed :
    (d : Deps) (evts : List (Deps × Event))
    → All (λ a. a.status ≡ active) (or_empty d.list_active)
    → IsKeyed (run evts (reload_active_alerts d start)).0
unfolding reload_active_alerts
run-reload_active_alerts-IsKeyed d evts s =
    run-IsKeyed evts _ (track_all-IsKeyed (or_empty d.list_active) start s start-IsKeyed)
