-- ===== src/Alert/Engine/Recovery.antt =====
-- What a recovery does to the store and to the escalator, on each answer of the store.
use pulseboard.Common.{
  String, string_eq, Bool, true, false, Option, none, some, List, [], ◌∷◌, ◌++◌, ◌≡◌, refl, ap, ◌∙◌,
  arith, if◌then◌else◌, Bool-cases, Option-cases, inl, inr, all, contains,
}
use pulseboard.Common.Assoc.{lookup}
use pulseboard.Alert.Model.{
  resolved, Event, Alert, AlertTrigger, NotificationChannel, key_eq, event_key,
}
use pulseboard.Alert.Deps.{Deps, Topic, alert_resolved, Effect, update_status, on_alert_resolved}
use pulseboard.Alert.Routing.{
  matches_trigger, enqueue_delivery, Dispatch, on_channel, dispatch_one, dispatch_ids,
  dispatch_triggers, dispatch_notifications, or_empty,
}
use pulseboard.Alert.Engine.{
  Engine, send, new_alert, closed, recovery_payload, after_recovery_insert, on_recovery,
  process_event,
}
use pulseboard.Alert.Engine.Invariant.{IsKeyed}
use pulseboard.Alert.Engine.Refinement.{view, is_some, process_event-own}

-- The alerts whose row an event's calls mark resolved, and those that the escalator is told of.
abbrev pub resolved_rows : List Effect → List String
resolved_rows [] = []
resolved_rows (update_status id resolved at by ∷ es) = id ∷ resolved_rows es
resolved_rows (_ ∷ es) = resolved_rows es

abbrev pub resolved_hooks : List Effect → List String
resolved_hooks [] = []
resolved_hooks (on_alert_resolved id at ∷ es) = id ∷ resolved_hooks es
resolved_hooks (_ ∷ es) = resolved_hooks es

-- Neither list hears of it.
abbrev is_other : Effect → Bool
is_other (update_status id s at by) = false
is_other (on_alert_resolved id at) = false
is_other _ = true

all-append :
    (es fs : List Effect)
    → all is_other es ≡ true
    → all is_other fs ≡ true
    → all is_other (es ++ fs) ≡ true
all-append [] fs h k = k
all-append (e ∷ es) fs h k = ground (arith, all-append es fs)

resolved_rows-other : (es : List Effect) → all is_other es ≡ true → resolved_rows es ≡ []
resolved_rows-other [] h = refl
resolved_rows-other (update_status i s a b ∷ es) h = cc
resolved_rows-other (on_alert_resolved i a ∷ es) h = cc
resolved_rows-other (_ ∷ es) h = resolved_rows-other es h

resolved_hooks-other : (es : List Effect) → all is_other es ≡ true → resolved_hooks es ≡ []
resolved_hooks-other [] h = refl
resolved_hooks-other (update_status i s a b ∷ es) h = cc
resolved_hooks-other (on_alert_resolved i a ∷ es) h = cc
resolved_hooks-other (_ ∷ es) h = resolved_hooks-other es h

if-other :
    (b : Bool) (s t : Dispatch)
    → all is_other s.effects ≡ true
    → all is_other t.effects ≡ true
    → all is_other (if b then s else t).effects ≡ true
if-other true s t h k = h
if-other false s t h k = k

module _ (d : Deps) (p : Alert) where
  on_channel-other :
      (s : Dispatch) (id : String) (o : Option (Option NotificationChannel))
      → all is_other s.effects ≡ true
      → all is_other (on_channel d p s id o).effects ≡ true
  unfolding on_channel
  on_channel-other s id none h = h
  on_channel-other s id (some none) h = h
  on_channel-other s id (some (some ch)) h = elim (Bool-cases ch.enabled) [
    | inl t ↦ simp t (
        all-append s.effects _ h (elim (Option-cases (d.store_delivery p.id ch.id)) [
          | inl e ↦ unfold enqueue_delivery in rw e
          | inr (i, e) ↦ unfold enqueue_delivery in rw e
        ]))
    | inr f ↦ simp f h
  ]

  dispatch_one-other :
      (s : Dispatch) (id : String)
      → all is_other s.effects ≡ true
      → all is_other (dispatch_one d p s id).effects ≡ true
  unfolding dispatch_one
  dispatch_one-other s id h = elim (Bool-cases (contains s.dispatched id)) [
    | inl t ↦ simp t h
    | inr f ↦ simp f (on_channel-other s id _ h)
  ]

  dispatch_ids-other :
      (s : Dispatch) (ids : List String)
      → all is_other s.effects ≡ true
      → all is_other (dispatch_ids d p s ids).effects ≡ true
  unfolding dispatch_ids
  dispatch_ids-other s [] h = h
  dispatch_ids-other s (id ∷ ids) h =
      dispatch_ids-other (dispatch_one d p s id) ids (dispatch_one-other s id h)

  dispatch_triggers-other :
      (a : Alert) (s : Dispatch) (ts : List AlertTrigger)
      → all is_other s.effects ≡ true
      → all is_other (dispatch_triggers d a p s ts).effects ≡ true
  unfolding dispatch_triggers
  dispatch_triggers-other a s [] h = h
  dispatch_triggers-other a s (t ∷ ts) h =
      dispatch_triggers-other a
        (if matches_trigger t a then dispatch_ids d p s t.channel_ids else s) ts
        (if-other (matches_trigger t a) (dispatch_ids d p s t.channel_ids) s
          (dispatch_ids-other s t.channel_ids h) h)

  dispatch_notifications-other : (a : Alert) → all is_other (dispatch_notifications d a p) ≡ true
  unfolding dispatch_notifications
  dispatch_notifications-other a = elim (Bool-cases d.has_notifier) [
    | inl t ↦ simp t (
        dispatch_ids-other
          (dispatch_triggers d a p (record { dispatched = []; effects = [] })
            (or_empty d.enabled_triggers))
          (d.route a.entity_type a.entity_id a.severity)
          (dispatch_triggers-other a (record { dispatched = []; effects = [] })
            (or_empty d.enabled_triggers) refl))
    | inr f ↦ simp f
  ]

send-other : (d : Deps) (topic : Topic) (a : Alert) → all is_other (send d topic a) ≡ true
send-other d topic a = elim (Bool-cases d.has_broadcaster) [ inl t ↦ simp t | inr f ↦ simp f ]

-- The calls behind the two that resolve the alert.
rest : Deps → Event → Alert → String → List Effect
rest d evt a id =
    let a' = closed evt a id in
    send d alert_resolved a' ++ dispatch_notifications d a' (recovery_payload evt a')

rest-other :
    (d : Deps) (evt : Event) (a : Alert) (id : String) → all is_other (rest d evt a id) ≡ true
unfolding rest
rest-other d evt a id =
    let a' = closed evt a id in
    all-append (send d alert_resolved a') (dispatch_notifications d a' (recovery_payload evt a'))
      (send-other d alert_resolved a') (dispatch_notifications-other d (recovery_payload evt a') a')

after_recovery_insert-resolves :
    (d : Deps) (evt : Event) (a : Alert) (o : Option String)
    → (resolved_rows (after_recovery_insert d evt a o) ≡ (if is_some o then a.id ∷ [] else []))
      × (resolved_hooks (after_recovery_insert d evt a o) ≡ (if is_some o then a.id ∷ [] else []))
unfolding after_recovery_insert rest
after_recovery_insert-resolves d evt a none = (refl, refl)
after_recovery_insert-resolves d evt a (some id) = (
  ap (λ l. a.id ∷ l) (resolved_rows-other (rest d evt a id) (rest-other d evt a id)),
  ap (λ l. a.id ∷ l) (resolved_hooks-other (rest d evt a id) (rest-other d evt a id)),
)

-- From a well-keyed map, a recovery that meets an active alert leaves no active alert under its key,
-- whatever the store answers; the store is asked to mark the row of the alert resolved (a failure of
-- that is only logged), and the escalator is told, exactly if the store takes the record of the
-- recovery.
pub process_event-recovery :
    (d : Deps) (evt : Event) (a : Alert) (e : Engine)
    → IsKeyed e
    → evt.is_recover ≡ true
    → lookup (event_key evt) e.active_alerts ≡ some a
    → (view (process_event d evt e).0 (event_key evt) ≡ none)
      × (resolved_rows (process_event d evt e).1
          ≡ (if is_some (d.store_insert (new_alert d evt resolved)) then a.id ∷ [] else []))
      × (resolved_hooks (process_event d evt e).1
          ≡ (if is_some (d.store_insert (new_alert d evt resolved)) then a.id ∷ [] else []))
process_event-recovery d evt a e h t p =
    let (rows, hooks) =
      after_recovery_insert-resolves d evt a (d.store_insert (new_alert d evt resolved)) in
    let step : process_event d evt e ≡ on_recovery d evt (some a) e =
      unfold process_event in simp (t, p) in
    (
      (process_event-own d evt e h) ∙ simp t,
      rw step (unfold on_recovery in rows),
      rw step (unfold on_recovery in hooks),
    )
