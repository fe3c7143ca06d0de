-- ===== src/Alert/Routing/Exact.antt =====
-- Which channels a dispatch reaches: the wanted ones that can be delivered to, each once.
use pulseboard.Common.{
  String, string_eq, Bool, true, false, ◌&&◌, ◌||◌, Option, none, some, List, [], ◌∷◌, ◌++◌, ◌≡◌,
  refl, sym, ap, ◌∙◌, select, arith, ◌==◌, eq_iff, contains, contains-append, distinct, any,
  Bool-cases, Option-cases, inl, inr,
}
use pulseboard.Alert.Model.{Alert, NotificationChannel, AlertTrigger}
use pulseboard.Alert.Deps.{Deps, FindsById, Effect, insert_delivery, enqueue}
use pulseboard.Alert.Routing.Distinct.{
  select-append, contains-select, distinct-select, distinct-append_one,
}
use pulseboard.Alert.Routing.{
  matches_trigger, enqueue_delivery, Dispatch, on_channel, dispatch_one, dispatch_ids,
  dispatch_triggers, or_empty, dispatch_notifications,
}

abbrev delivery_of : Effect → List String
delivery_of (insert_delivery a ch) = ch ∷ []
delivery_of _ = []

-- The channels for which the store was asked to insert a delivery, in order.
abbrev pub delivered : List Effect → List String
delivered [] = []
delivered (e ∷ es) = delivery_of e ++ delivered es

abbrev queue_of : Effect → List String
queue_of (enqueue id ch a) = ch.id ∷ []
queue_of _ = []

-- The channels whose delivery was handed to the notifier, in order.
abbrev pub enqueued : List Effect → List String
enqueued [] = []
enqueued (e ∷ es) = queue_of e ++ enqueued es

-- The channel is there and enabled.
abbrev pub deliverable : Deps → String → Bool
deliverable d c = elim (d.get_channel c) [
  | none ↦ false
  | some found ↦ elim found [ none ↦ false | some ch ↦ ch.enabled ]
]

abbrev pub by_trigger : Alert → String → List AlertTrigger → Bool
by_trigger a c ts = any (λ t. matches_trigger t a && contains t.channel_ids c) ts

-- A matching enabled trigger or the entity router names the channel.
abbrev pub wanted : Deps → Alert → String → Bool
wanted d a c =
    by_trigger a c (or_empty d.enabled_triggers)
    || contains (d.route a.entity_type a.entity_id a.severity) c

delivered-append : (xs ys : List Effect) → delivered (xs ++ ys) ≡ delivered xs ++ delivered ys
delivered-append [] ys = refl
delivered-append (insert_delivery a ch ∷ xs) ys = rw (delivered-append xs ys)
delivered-append (_ ∷ xs) ys = delivered-append xs ys

delivered-enqueue_delivery :
    (d : Deps) (ch : NotificationChannel) (a : Alert)
    → delivered (enqueue_delivery d ch a) ≡ ch.id ∷ []
unfolding enqueue_delivery
delivered-enqueue_delivery d ch a = elim (Option-cases (d.store_delivery a.id ch.id)) [
  | inl e ↦ rw e
  | inr (i, e) ↦ rw e
]

enqueued-append : (xs ys : List Effect) → enqueued (xs ++ ys) ≡ enqueued xs ++ enqueued ys
enqueued-append [] ys = refl
enqueued-append (enqueue id ch a ∷ xs) ys = rw (enqueued-append xs ys)
enqueued-append (_ ∷ xs) ys = enqueued-append xs ys

-- The store takes the delivery of an alert to the channel.
abbrev pub takes : Deps → Alert → String → Bool
takes d a c = elim (d.store_delivery a.id c) [ none ↦ false | some id ↦ true ]

enqueued-enqueue_delivery :
    (d : Deps) (ch : NotificationChannel) (a : Alert)
    → enqueued (enqueue_delivery d ch a) ≡ select (takes d a) (ch.id ∷ [])
unfolding enqueue_delivery
enqueued-enqueue_delivery d ch a = elim (Option-cases (d.store_delivery a.id ch.id)) [
  | inl e ↦ ground (arith, e)
  | inr (i, e) ↦ ground (arith, e)
]

-- The set `dispatched` is the set of the deliveries that were asked for, none of them twice, and
-- what was enqueued are those that the store took.
record Agrees (d : Deps) (payload : Alert) (s : Dispatch) : Type 0 where
  taken : enqueued s.effects ≡ select (takes d payload) (delivered s.effects)
  same : (c : String) → contains (delivered s.effects) c ≡ contains s.dispatched c
  once : distinct (delivered s.effects) ≡ true

module _ (d : Deps) (payload : Alert) where
  dispatch_one-dispatched :
      (s : Dispatch) (id c : String)
      → contains (dispatch_one d payload s id).dispatched c
        ≡ (contains s.dispatched c || (id == c && deliverable d c))
  unfolding dispatch_one
  dispatch_one-dispatched s id c = ground (arith, eq_iff id c)

module _ (d : Deps) (payload : Alert) (s : Dispatch) (id : String) where
  dispatch_one_old : contains s.dispatched id ≡ true → dispatch_one d payload s id ≡ s
  unfolding dispatch_one
  dispatch_one_old h = rw h

  dispatch_one_new :
      contains s.dispatched id ≡ false
      → dispatch_one d payload s id ≡ on_channel d payload s id (d.get_channel id)
  unfolding dispatch_one
  dispatch_one_new h = rw h

module _ (d : Deps) (payload : Alert) where
  delivered-push :
      (es : List Effect) (id : String) (ch : NotificationChannel)
      → ch.id ≡ id
      → delivered (es ++ enqueue_delivery d ch payload) ≡ delivered es ++ id ∷ []
  delivered-push es id ch e =
      delivered-append es (enqueue_delivery d ch payload)
      ∙ ap (λ l. delivered es ++ l) (delivered-enqueue_delivery d ch payload)
      ∙ ap (λ i. delivered es ++ i ∷ []) e

  push-Agrees :
      (s : Dispatch) (id : String) (ch : NotificationChannel)
      → Agrees d payload s
      → contains s.dispatched id ≡ false
      → ch.id ≡ id
      → Agrees d payload (record {
        dispatched = id ∷ s.dispatched;
        effects = s.effects ++ enqueue_delivery d ch payload;
      })
  push-Agrees s id ch h new e = record {
    taken =
        enqueued-append s.effects (enqueue_delivery d ch payload)
        ∙ ap (λ l. l ++ enqueued (enqueue_delivery d ch payload)) h.taken
        ∙ ap (λ l. select (takes d payload) (delivered s.effects) ++ l)
            (enqueued-enqueue_delivery d ch payload ∙ ap (λ i. select (takes d payload) (i ∷ [])) e)
        ∙ sym (select-append (takes d payload) (delivered s.effects) (id ∷ []))
        ∙ ap (select (takes d payload)) (sym (delivered-push s.effects id ch e));
    same = λ c.
        rw (delivered-push s.effects id ch e)
          (ground (arith, contains-append (delivered s.effects) (id ∷ []) c, h.same c));
    once =
        rw (delivered-push s.effects id ch e)
          (distinct-append_one (delivered s.effects) id h.once (h.same id ∙ new));
  }

module _ (d : Deps) (payload : Alert) (finds : FindsById d) where
  on_channel-Agrees :
      (s : Dispatch) (id : String) (o : Option (Option NotificationChannel))
      → d.get_channel id ≡ o
      → contains s.dispatched id ≡ false
      → Agrees d payload s
      → Agrees d payload (on_channel d payload s id o)
  unfolding on_channel
  on_channel-Agrees s id none e new h = h
  on_channel-Agrees s id (some none) e new h = h
  on_channel-Agrees s id (some (some ch)) e new h = elim (Bool-cases ch.enabled) [
    | inl t ↦ simp t (push-Agrees d payload s id ch h new (finds.at_id id ch e))
    | inr f ↦ simp f h
  ]

  dispatch_one-Agrees :
      (s : Dispatch) (id : String)
      → Agrees d payload s
      → Agrees d payload (dispatch_one d payload s id)
  dispatch_one-Agrees s id h = elim (Bool-cases (contains s.dispatched id)) [
    | inl old ↦ rw (dispatch_one_old d payload s id old) h
    | inr new ↦
        rw (dispatch_one_new d payload s id new)
          (on_channel-Agrees s id (d.get_channel id) refl new h)
  ]

  dispatch_ids-Agrees :
      (s : Dispatch) (ids : List String)
      → Agrees d payload s
      → Agrees d payload (dispatch_ids d payload s ids)
  unfolding dispatch_ids
  dispatch_ids-Agrees s [] h = h
  dispatch_ids-Agrees s (id ∷ ids) h =
      dispatch_ids-Agrees (dispatch_one d payload s id) ids (dispatch_one-Agrees s id h)

  dispatch_triggers-Agrees :
      (a : Alert) (s : Dispatch) (ts : List AlertTrigger)
      → Agrees d payload s
      → Agrees d payload (dispatch_triggers d a payload s ts)
  unfolding dispatch_triggers
  dispatch_triggers-Agrees a s [] h = h
  dispatch_triggers-Agrees a s (t ∷ ts) h = elim (Bool-cases (matches_trigger t a)) [
    | inl m ↦ rw m (
        dispatch_triggers-Agrees a (dispatch_ids d payload s t.channel_ids) ts
          (dispatch_ids-Agrees s t.channel_ids h))
    | inr m ↦ rw m (dispatch_triggers-Agrees a s ts h)
  ]

module _ (d : Deps) (payload : Alert) (c : String) where
  dispatch_ids-dispatched :
      (s : Dispatch) (ids : List String)
      → contains (dispatch_ids d payload s ids).dispatched c
        ≡ (contains s.dispatched c || (contains ids c && deliverable d c))
  unfolding dispatch_ids
  dispatch_ids-dispatched s [] = ground arith
  dispatch_ids-dispatched s (id ∷ ids) = ground (
    arith,
    dispatch_ids-dispatched (dispatch_one d payload s id) ids,
    dispatch_one-dispatched d payload s id c,
  )

  dispatch_triggers-dispatched :
      (a : Alert) (s : Dispatch) (ts : List AlertTrigger)
      → contains (dispatch_triggers d a payload s ts).dispatched c
        ≡ (contains s.dispatched c || (by_trigger a c ts && deliverable d c))
  unfolding dispatch_triggers
  dispatch_triggers-dispatched a s [] = ground arith
  dispatch_triggers-dispatched a s (t ∷ ts) = ground (
    arith,
    dispatch_triggers-dispatched a (dispatch_ids d payload s t.channel_ids) ts,
    dispatch_triggers-dispatched a s ts,
    dispatch_ids-dispatched s t.channel_ids,
  )

empty-Agrees :
    (d : Deps) (payload : Alert) → Agrees d payload (record { dispatched = []; effects = [] })
empty-Agrees d payload = record { taken = refl; same = λ c. refl; once = refl }

-- With a notifier, and a channel store that returns the channel asked for, a dispatch asks the store
-- for a delivery to exactly the channels that are wanted (named by a matching enabled trigger or by
-- the entity router) and that exist and are enabled, to none of them twice, and enqueues one for
-- exactly those of them whose delivery the store takes, for none of them twice.
pub dispatch_notifications-delivered :
    (d : Deps) (route_by payload : Alert)
    → FindsById d
    → d.has_notifier ≡ true
    → (distinct (delivered (dispatch_notifications d route_by payload)) ≡ true)
      × ((c : String)
          → contains (delivered (dispatch_notifications d route_by payload)) c
            ≡ (wanted d route_by c && deliverable d c))
      × (distinct (enqueued (dispatch_notifications d route_by payload)) ≡ true)
      × ((c : String)
          → contains (enqueued (dispatch_notifications d route_by payload)) c
            ≡ (wanted d route_by c && (deliverable d c && takes d payload c)))
unfolding dispatch_notifications
dispatch_notifications-delivered d a p finds n = simp n (
  agrees.once,
  λ c. ground (
    arith,
    agrees.same c,
    dispatch_ids-dispatched d p c by_triggers routed,
    dispatch_triggers-dispatched d p c a start (or_empty d.enabled_triggers),
  ),
  rw agrees.taken (distinct-select (takes d p) (delivered end.effects) agrees.once),
  λ c. rw agrees.taken (
      ground (
        arith,
        contains-select (takes d p) (delivered end.effects) c,
        agrees.same c,
        dispatch_ids-dispatched d p c by_triggers routed,
        dispatch_triggers-dispatched d p c a start (or_empty d.enabled_triggers),
      )),
)
  where
    start : Dispatch
    start = record { dispatched = []; effects = [] }

    by_triggers : Dispatch
    by_triggers = dispatch_triggers d a p start (or_empty d.enabled_triggers)

    routed : List String
    routed = d.route a.entity_type a.entity_id a.severity

    end : Dispatch
    end = dispatch_ids d p by_triggers routed

    agrees : Agrees d p end
    agrees = dispatch_ids-Agrees d p finds by_triggers routed (
        dispatch_triggers-Agrees d p finds a start (or_empty d.enabled_triggers) (empty-Agrees d p))
