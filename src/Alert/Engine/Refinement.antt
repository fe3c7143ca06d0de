-- ===== src/Alert/Engine/Refinement.antt =====
-- The engine refines a book of severities: what it does to its map, seen through the severity of
-- the active alert under each key.
use mathlib.Core.Path.{subst}
use pulseboard.Common.{
  ◌==◌, sym, if-true, if-false, String, string_eq, Bool, true, false, not, ◌&&◌, Option, none, some,
  ◌≡◌, refl, ap, ◌∙◌, ◌≢◌, if◌then◌else◌, Bool-cases, inl, inr, ne-if,
}
use pulseboard.Common.Int.{ltb_ℤ}
use pulseboard.Common.Assoc.{
  lookup, delete, lookup-insert, lookup-delete, lookup-insert_self, lookup-delete_self,
}
use pulseboard.Alert.Model.{
  active, silenced, Event, Alert, ActiveAlertKey, key_eq, event_key, alert_key, key_beq_iff,
  severity_rank,
}
use pulseboard.Alert.Silence.{check_silence_rules}
use pulseboard.Alert.Deps.{Deps}
use pulseboard.Alert.Engine.{
  Engine, track, new_alert, escalate_alert, after_insert, fire_new, on_existing, on_recovery,
  process_event,
}
use pulseboard.Alert.Engine.Invariant.{IsKeyed}

-- The severity of an alert that may be there.
abbrev pub severity_of : Option Alert → Option String
severity_of none = none
severity_of (some a) = some a.severity

-- What the engine shows: the severity of the active alert under a key.
abbrev pub view : Engine → ActiveAlertKey → Option String
view e k = severity_of (lookup k e.active_alerts)

abbrev pub is_some : Option String → Bool
is_some none = false
is_some (some s) = true

-- The specification: what an event does to the severity under its own key. `quiet` tells whether
-- the event is silenced, `stored` whether the store takes a new alert.
abbrev pub book : Bool → Bool → Bool → String → Option String → Option String
book true quiet stored severity previous = none
book false quiet stored severity none = if stored && not quiet then some severity else none
book false quiet stored severity (some s) =
    if ltb_ℤ (severity_rank s) (severity_rank severity) then some severity else some s

-- Whether the store takes the alert of this event.
abbrev pub stored : Deps → Event → Bool
stored d evt =
    is_some
      (d.store_insert (new_alert d evt (if check_silence_rules d evt then silenced else active)))

-- A change under one key alone, and what stands there afterwards.
record Writes (k : ActiveAlertKey) (after : Option String) (e e' : Engine) : Type 0 where
  own : view e' k ≡ after
  others : (j : ActiveAlertKey) → k ≢ j → view e' j ≡ view e j

track-Writes :
    (k : ActiveAlertKey) (a : Alert) (e : Engine) → Writes k (some a.severity) e (track k a e)
track-Writes k a e = record {
  own = ap severity_of (lookup-insert_self k a e.active_alerts);
  others = λ j n. ap severity_of (lookup-insert k j a e.active_alerts ∙ ne-if key_eq k j _ _ n);
}

none-Writes :
    (k : ActiveAlertKey) (after : Option String) (e : Engine)
    → view e k ≡ after
    → Writes k after e e
none-Writes k after e h = record { own = h; others = λ j n. refl }

delete-Writes :
    (k : ActiveAlertKey) (e : Engine)
    → Writes k none e (record { active_alerts = delete k e.active_alerts })
delete-Writes k e = record {
  own = ap severity_of (lookup-delete_self k e.active_alerts);
  others = λ j n. ap severity_of (lookup-delete k j e.active_alerts ∙ ne-if key_eq k j _ _ n);
}

after_insert-Writes :
    (d : Deps) (evt : Event) (quiet : Bool) (a : Alert) (o : Option String) (e : Engine)
    → lookup (event_key evt) e.active_alerts ≡ none
    → a.severity ≡ evt.severity
    → Writes
        (event_key evt)
        (book false quiet (is_some o) evt.severity none)
        e
        (after_insert d evt quiet a o e).0
unfolding after_insert
after_insert-Writes d evt quiet a none e h s = none-Writes _ _ e (ap severity_of h)
after_insert-Writes d evt true a (some id) e h s = none-Writes _ _ e (ap severity_of h)
after_insert-Writes d evt false a (some id) e h s = rw (← s) (track-Writes _ _ e)

fire_new-Writes :
    (d : Deps) (evt : Event) (e : Engine)
    → lookup (event_key evt) e.active_alerts ≡ none
    → Writes
        (event_key evt)
        (book false (check_silence_rules d evt) (stored d evt) evt.severity none)
        e
        (fire_new d evt e).0
unfolding fire_new
fire_new-Writes d evt e h =
    let quiet = check_silence_rules d evt in
    after_insert-Writes d evt quiet (new_alert d evt (if quiet then silenced else active)) _ e h
      refl

-- Writing the same entry twice.
track_twice-Writes :
    (k j : ActiveAlertKey) (a : Alert) (e : Engine)
    → j ≡ k
    → Writes k (some a.severity) e (track j a (track k a e))
track_twice-Writes k j a e p = rw p (record {
  own = (track-Writes k a (track k a e)).own;
  others = λ i n. (track-Writes k a (track k a e)).others i n ∙ (track-Writes k a e).others i n;
})

escalate_alert-Writes :
    (d : Deps) (a : Alert) (evt : Event) (e : Engine)
    → alert_key a ≡ event_key evt
    → Writes (event_key evt) (some evt.severity) e (escalate_alert d a evt e).0
unfolding escalate_alert
escalate_alert-Writes d a evt e p = elim (Bool-cases (d.store_escalate a.id)) [
  | inl t ↦ simp t (track_twice-Writes _ _ _ e p)
  | inr f ↦ simp f (track-Writes _ _ e)
]

on_existing-Writes :
    (d : Deps) (evt : Event) (o : Option Alert) (e : Engine)
    → lookup (event_key evt) e.active_alerts ≡ o
    → IsKeyed e
    → Writes
        (event_key evt)
        (book false (check_silence_rules d evt) (stored d evt) evt.severity (severity_of o))
        e
        (on_existing d evt o e).0
unfolding on_existing
on_existing-Writes d evt none e p h = fire_new-Writes d evt e p
on_existing-Writes d evt (some a) e p h =
    elim (Bool-cases (ltb_ℤ (severity_rank a.severity) (severity_rank evt.severity))) [
      | inl t ↦ simp t (escalate_alert-Writes d a evt e (h.at_key (event_key evt) a p).0)
      | inr f ↦ simp f (none-Writes _ _ e (ap severity_of p))
    ]

on_recovery-Writes :
    (d : Deps) (evt : Event) (o : Option Alert) (e : Engine)
    → lookup (event_key evt) e.active_alerts ≡ o
    → Writes (event_key evt) none e (on_recovery d evt o e).0
unfolding on_recovery
on_recovery-Writes d evt none e p = none-Writes _ _ e (ap severity_of p)
on_recovery-Writes d evt (some a) e p = delete-Writes (event_key evt) e

process_event-Writes :
    (d : Deps) (evt : Event) (e : Engine)
    → IsKeyed e
    → Writes
        (event_key evt)
        (book evt.is_recover
          (check_silence_rules d evt)
          (stored d evt)
          evt.severity
          (view e (event_key evt)))
        e
        (process_event d evt e).0
unfolding process_event
process_event-Writes d evt e h = elim (Bool-cases evt.is_recover) [
  | inl t ↦ simp t (on_recovery-Writes d evt _ e refl)
  | inr f ↦ simp f (on_existing-Writes d evt _ e refl h)
]

Writes-at :
    {k : ActiveAlertKey} (j : ActiveAlertKey) {e e' : Engine}
    (after : Option String → Option String)
    → Writes k (after (view e k)) e e'
    → view e' j ≡ (if k == j then after (view e j) else view e j)
Writes-at {k} j {e} {e'} after w = elim (Bool-cases (key_eq.same k j)) [
  | inl t ↦
      subst (λ i. view e' i ≡ after (view e i)) ((key_beq_iff k j).0 t) w.own
      ∙ sym (if-true (key_eq.same k j) _ _ t)
  | inr f ↦ w.others j (λ p. cc ((key_beq_iff k j).1 p)) ∙ sym (if-false (key_eq.same k j) _ _ f)
]

-- At the event's own key.
pub process_event-own :
    (d : Deps) (evt : Event) (e : Engine)
    → IsKeyed e
    → view (process_event d evt e).0 (event_key evt)
      ≡ book evt.is_recover
          (check_silence_rules d evt)
          (stored d evt)
          evt.severity
          (view e (event_key evt))
process_event-own d evt e h = (process_event-Writes d evt e h).own

-- The engine refines the book of severities: an event changes the severity of the active alert under
-- its own key as `book` says (a recovery clears it; a first event that is not silenced and that the
-- store takes sets it; a later one replaces it exactly when its severity ranks higher), and changes
-- nothing under any other key. The engine's map holds each active alert under its own key.
pub process_event-book :
    (d : Deps) (evt : Event) (e : Engine) (k : ActiveAlertKey)
    → IsKeyed e
    → view (process_event d evt e).0 k ≡ (
        if event_key evt == k
        then book evt.is_recover (check_silence_rules d evt) (stored d evt) evt.severity (view e k)
        else view e k)
process_event-book d evt e k h =
    Writes-at k (book evt.is_recover (check_silence_rules d evt) (stored d evt) evt.severity)
      (process_event-Writes d evt e h)
