-- ===== src/Alert/Engine/Notifications.antt =====
-- Which calls the engine makes for an event.
use pulseboard.Common.{
  String, string_eq, Bool, true, false, not, ◌&&◌, Option, none, some, List, [], ◌++◌, ◌≡◌, refl,
  sym, ◌∙◌, arith, if◌then◌else◌, Bool-cases, Option-cases, inl, inr, ◌⊎◌, distinct,
}
use pulseboard.Common.Int.{ltb_ℤ}
use pulseboard.Alert.Model.{
  active, resolved, silenced, Event, Alert, key_eq, event_key, severity_rank,
}
use pulseboard.Alert.Silence.{check_silence_rules}
use pulseboard.Alert.Deps.{Deps, FindsById, Topic, Effect}
use pulseboard.Alert.Routing.{dispatch_notifications}
use pulseboard.Alert.Routing.Exact.{delivered, dispatch_notifications-delivered}
use pulseboard.Alert.Engine.{
  Engine, send, new_alert, refreshed, escalate_alert, after_insert, fire_new, on_existing,
  after_recovery_insert, on_recovery, process_event,
}
use pulseboard.Alert.Engine.Invariant.{IsKeyed}
use pulseboard.Alert.Engine.Refinement.{severity_of, is_some, view, book, stored, process_event-own}

-- A broadcast creates no delivery.
delivered-send :
    (d : Deps) (topic : Topic) (a : Alert) (es : List Effect)
    → delivered (send d topic a ++ es) ≡ delivered es
delivered-send d topic a es = elim (Bool-cases d.has_broadcaster) [
  | inl t ↦ simp t
  | inr f ↦ simp f
]

delivered-send_alone : (d : Deps) (topic : Topic) (a : Alert) → delivered (send d topic a) ≡ []
delivered-send_alone d topic a = elim (Bool-cases d.has_broadcaster) [
  | inl t ↦ simp t
  | inr f ↦ simp f
]

-- The deliveries of a handler come from one dispatch, or there are none.
record OneDispatch (d : Deps) (es : List Effect) : Type 0 where
  sent :
      (delivered es ≡ [])
      ⊎ ((a : Alert) × (p : Alert) × (delivered es ≡ delivered (dispatch_notifications d a p)))

escalate_alert-OneDispatch :
    (d : Deps) (a : Alert) (evt : Event) (e : Engine) → OneDispatch d (escalate_alert d a evt e).1
unfolding escalate_alert
escalate_alert-OneDispatch d a evt e = elim (Bool-cases (d.store_escalate a.id)) [
  | inl t ↦ record {
    sent = inr (refreshed d a evt, refreshed d a evt, simp t (delivered-send d _ _ _));
  }
  | inr f ↦ record { sent = inl (simp f) }
]

after_insert-OneDispatch :
    (d : Deps) (evt : Event) (quiet : Bool) (a : Alert) (o : Option String) (e : Engine)
    → OneDispatch d (after_insert d evt quiet a o e).1
unfolding after_insert
after_insert-OneDispatch d evt quiet a none e = record { sent = inl refl }
after_insert-OneDispatch d evt true a (some id) e = record {
  sent = inl (delivered-send_alone d _ _);
}
after_insert-OneDispatch d evt false a (some id) e = record {
  sent = inr (record a { id = id }, record a { id = id }, delivered-send d _ _ _);
}

fire_new-OneDispatch : (d : Deps) (evt : Event) (e : Engine) → OneDispatch d (fire_new d evt e).1
unfolding fire_new
fire_new-OneDispatch d evt e =
    let quiet = check_silence_rules d evt in
    record {
      sent =
          (after_insert-OneDispatch d evt quiet
            (new_alert d evt (if quiet then silenced else active)) _ e).sent;
    }

on_existing-OneDispatch :
    (d : Deps) (evt : Event) (o : Option Alert) (e : Engine)
    → OneDispatch d (on_existing d evt o e).1
unfolding on_existing
on_existing-OneDispatch d evt none e = fire_new-OneDispatch d evt e
on_existing-OneDispatch d evt (some a) e =
    elim (Bool-cases (ltb_ℤ (severity_rank a.severity) (severity_rank evt.severity))) [
      | inl t ↦ simp t (escalate_alert-OneDispatch d a evt e)
      | inr f ↦ simp f (record { sent = inl refl })
    ]

on_recovery-OneDispatch :
    (d : Deps) (evt : Event) (o : Option Alert) (e : Engine)
    → OneDispatch d (on_recovery d evt o e).1
unfolding on_recovery
on_recovery-OneDispatch d evt none e = record { sent = inl refl }
on_recovery-OneDispatch d evt (some a) e =
    elim (Option-cases (d.store_insert (new_alert d evt resolved))) [
      | inl n ↦ simp n (unfold after_recovery_insert in record { sent = inl refl })
      | inr (id, s) ↦
          simp s
            (unfold after_recovery_insert in record { sent = inr (_, _, delivered-send d _ _ _) })
    ]

process_event-OneDispatch :
    (d : Deps) (evt : Event) (e : Engine) → OneDispatch d (process_event d evt e).1
unfolding process_event
process_event-OneDispatch d evt e = elim (Bool-cases evt.is_recover) [
  | inl t ↦ simp t (on_recovery-OneDispatch d evt _ e)
  | inr f ↦ simp f (on_existing-OneDispatch d evt _ e)
]

dispatch_notifications-distinct :
    (d : Deps) (a p : Alert)
    → FindsById d
    → distinct (delivered (dispatch_notifications d a p)) ≡ true
dispatch_notifications-distinct d a p finds = elim (Bool-cases d.has_notifier) [
  | inl t ↦ (dispatch_notifications-delivered d a p finds t).0
  | inr f ↦ unfold dispatch_notifications in simp f
]

-- No event, fired or recovered, creates two deliveries for one channel, if the channel store returns
-- the channel asked for.
pub process_event-distinct :
    (d : Deps) (evt : Event) (e : Engine)
    → FindsById d
    → distinct (delivered (process_event d evt e).1) ≡ true
process_event-distinct d evt e finds = elim (process_event-OneDispatch d evt e).sent [
  | inl n ↦ rw n
  | inr (a, p, s) ↦ rw s (dispatch_notifications-distinct d a p finds)
]

after_insert_unchanged :
    (d : Deps) (evt : Event) (quiet : Bool) (a : Alert) (o : Option String) (e : Engine)
    → (is_some o && not quiet) ≡ false
    → delivered (after_insert d evt quiet a o e).1 ≡ []
unfolding after_insert
after_insert_unchanged d evt quiet a none e h = refl
after_insert_unchanged d evt true a (some id) e h = delivered-send_alone d _ _
after_insert_unchanged d evt false a (some id) e h = cc

fire_new_unchanged :
    (d : Deps) (evt : Event) (e : Engine)
    → (stored d evt && not (check_silence_rules d evt)) ≡ false
    → delivered (fire_new d evt e).1 ≡ []
unfolding fire_new
fire_new_unchanged d evt e h =
    let quiet = check_silence_rules d evt in
    after_insert_unchanged d evt quiet (new_alert d evt (if quiet then silenced else active)) _ e h

-- A specification that leaves the severity alone asks for no delivery.
same_book :
    (d : Deps) (evt : Event) (o : Option Alert) (e : Engine)
    → book false (check_silence_rules d evt) (stored d evt) evt.severity (severity_of o)
      ≡ severity_of o
    → delivered (on_existing d evt o e).1 ≡ []
unfolding on_existing
same_book d evt none e h = fire_new_unchanged d evt e (ground arith)
same_book d evt (some a) e h =
    elim (Bool-cases (ltb_ℤ (severity_rank a.severity) (severity_rank evt.severity))) [
      | inl t ↦ absurd (ground arith)
      | inr f ↦ simp f
    ]

gone_book :
    (d : Deps) (evt : Event) (o : Option Alert) (e : Engine)
    → none ≡ severity_of o
    → delivered (on_recovery d evt o e).1 ≡ []
unfolding on_recovery
gone_book d evt none e h = refl
gone_book d evt (some a) e h = cc

-- Notifications announce changes only: an event that leaves the severity under its key as it was (a
-- duplicate, a silenced event, a recovery of nothing, a first event that the store refuses) creates
-- no delivery. The engine's map holds each active alert under its own key.
pub process_event_unchanged :
    (d : Deps) (evt : Event) (e : Engine)
    → IsKeyed e
    → view (process_event d evt e).0 (event_key evt) ≡ view e (event_key evt)
    → delivered (process_event d evt e).1 ≡ []
process_event_unchanged d evt e h same =
    unchanged evt.is_recover refl (sym (process_event-own d evt e h) ∙ same)
  where
    unchanged :
        (r : Bool)
        → evt.is_recover ≡ r
        → book r (check_silence_rules d evt) (stored d evt) evt.severity (view e (event_key evt))
          ≡ view e (event_key evt)
        → delivered (process_event d evt e).1 ≡ []
    unchanged true t b = unfold process_event in simp t (gone_book d evt _ e b)
    unchanged false f b = unfold process_event in simp f (same_book d evt _ e b)
