-- ===== src/Security/Insights/Alerts.antt =====
-- The alert on the settings of a container: what the alert engine makes of a run of discoveries.
use mathlib.Core.Path.{subst}
use pulseboard.Common.{
  sym, ℕ, String, string_eq, Bool, true, false, not, ◌&&◌, ◌||◌, List, [], ◌∷◌, ◌==◌, ◌≡◌, refl,
  ◌∙◌, ap, arith, all, select, if◌then◌else◌, Bool-cases, ==→≡, inl, inr,
}
use pulseboard.Common.Assoc.{lookup, insert, lookup-insert, lookup-delete}
use pulseboard.Alert.Model.{Event, ActiveAlertKey, key_eq, event_key}
use pulseboard.Alert.Deps.{Deps}
use pulseboard.Alert.Engine.{Engine, run}
use pulseboard.Alert.Engine.Invariant.{IsKeyed}
use pulseboard.Alert.Engine.Standing.{
  stands, events_of, opened, opened-append, opened-select, run-opened,
}
use pulseboard.Security.Insights.{
  Insight, Types, type_set, has_change, Service, or_empty, is_empty, calls, update_container,
}
use pulseboard.Security.Insights.Docker.{analyze_docker, is_dangerous, analyze_docker-highest}
use pulseboard.Security.Insights.Discovery.{Texts, alert_events, Sync, sync_security, sync_all}

abbrev pub insight_key : String → ActiveAlertKey
insight_key id = record {
  source = "security";
  alert_type = "dangerous_configuration";
  entity_type = "container";
  entity_id = id;
}

-- Whether the service remembers insights of a container.
abbrev pub is_flagged : Service → String → Bool
is_flagged s id = not (is_empty (or_empty (lookup id s.previous)))

insert-is_empty {ℓ} :
    {V : Type ℓ} (k : String) (v : V) (m : List (String × V)) → is_empty (insert k v m) ≡ false
unfolding insert
insert-is_empty k v [] = refl
insert-is_empty k v (entry ∷ m) = ground arith

type_set-is_empty :
    (insights : List Insight) (types : Types)
    → is_empty (type_set insights types) ≡ (is_empty insights && is_empty types)
unfolding type_set
type_set-is_empty [] types = refl
type_set-is_empty (i ∷ insights) types =
    type_set-is_empty insights (insert i.insight_type true types)
    ∙ ground (arith, insert-is_empty i.insight_type true types)

update_container-is_flagged :
    (id name : String) (new : List Insight) (s : Service) (k : String)
    → is_flagged (update_container id name new s).0 k
      ≡ (if id == k then not (is_empty new) else is_flagged s k)
unfolding update_container
update_container-is_flagged id name new s k = ground (
  arith,
  type_set-is_empty new [],
  lookup-insert id k (type_set new []) s.previous,
  lookup-delete id k s.previous,
)

-- Sets of which one is empty and the other is not differ.
has_change-is_empty : (old new : Types) → has_change old new ≡ false → is_empty old ≡ is_empty new
has_change-is_empty [] [] h = refl
has_change-is_empty (t ∷ old) [] h = ground (arith, h)
has_change-is_empty [] (t ∷ new) h = ground (arith, h)
has_change-is_empty (t ∷ old) (u ∷ new) h = refl

opened-calls :
    (texts : Texts) (now : ℕ) (s : Service) (id name : String) (new : List Insight)
    (had changed : Bool) (k : String) (b : Bool)
    → s.has_alert ≡ true
    → opened (insight_key k) b (alert_events texts now (calls s id name new had changed))
      ≡ (if changed && id == k then (if not (is_empty new) then true else (not had && b)) else b)
opened-calls texts now s id name [] had changed k b h = ground (arith, h)
opened-calls texts now s id name (i ∷ new) had changed k b h = ground (arith, h)

-- Whether the settings that a container had last are dangerous.
abbrev pub last_dangerous : String → Bool → List Sync → Bool
last_dangerous id b [] = b
last_dangerous id b (o ∷ syncs) =
    last_dangerous id (if o.id == id then is_dangerous o.cfg else b) syncs

update_container-opened :
    (texts : Texts) (now : ℕ) (id name : String) (new : List Insight) (s : Service) (k : String)
    → s.has_alert ≡ true
    → opened
        (insight_key k)
        (is_flagged s k)
        (alert_events texts now (update_container id name new s).1)
      ≡ (if id == k then not (is_empty new) else is_flagged s k)
unfolding update_container
update_container-opened texts now id name new s k h =
    let old = or_empty (lookup id s.previous) in
    let types = type_set new [] in
    opened-calls texts now s id name new (not (is_empty old)) (has_change old types) k
      (is_flagged s k) h
    ∙ elim (Bool-cases (id == k)) [
      | inl t ↦ ground (
        arith,
        t,
        ap (λ k. is_flagged s k) (==→≡ id k t),
        type_set-is_empty new [],
        has_change-is_empty old types,
        Bool-cases (has_change old types),
      )
      | inr f ↦ ground (arith, f)
    ]

sync_security-opened :
    (texts : Texts) (o : Sync) (s : Service) (id : String)
    → s.has_alert ≡ true
    → (is_flagged (sync_security texts o s).0 id
        ≡ (if o.id == id then is_dangerous o.cfg else is_flagged s id))
      × (opened (insight_key id) (is_flagged s id) (sync_security texts o s).1
          ≡ (if o.id == id then is_dangerous o.cfg else is_flagged s id))
unfolding sync_security
sync_security-opened texts o s id h =
    let new = analyze_docker o.id o.name o.cfg o.now in
    let dangerous : not (is_empty new) ≡ is_dangerous o.cfg =
      ground (arith, (analyze_docker-highest o.id o.name o.cfg o.now).1) in
    let there = ap (λ b. if o.id == id then b else is_flagged s id) dangerous in
    (
      update_container-is_flagged o.id o.name new s id ∙ there,
      update_container-opened texts o.now o.id o.name new s id h ∙ there,
    )

sync_security-has_alert :
    (texts : Texts) (o : Sync) (s : Service) → (sync_security texts o s).0.has_alert ≡ s.has_alert
unfolding sync_security update_container
sync_security-has_alert texts o s = refl

sync_all-opened :
    (texts : Texts) (syncs : List Sync) (s : Service) (id : String)
    → s.has_alert ≡ true
    → (is_flagged (sync_all texts syncs s).0 id ≡ last_dangerous id (is_flagged s id) syncs)
      × (opened (insight_key id) (is_flagged s id) (sync_all texts syncs s).1
          ≡ last_dangerous id (is_flagged s id) syncs)
unfolding sync_all
sync_all-opened texts [] s id h = (refl, refl)
sync_all-opened texts (o ∷ syncs) s id h =
    let done = sync_security texts o s in
    let (flag, now) = sync_security-opened texts o s id h in
    let (flags, opens) =
      sync_all-opened texts syncs done.0 id (sync_security-has_alert texts o s ∙ h) in
    ground (
      arith,
      flags,
      opens,
      flag,
      now,
      opened-append (insight_key id) (is_flagged s id) done.1 (sync_all texts syncs done.0).1,
    )

-- The events of the service, of all containers, among those of everything else.
abbrev pub is_insight : Event → Bool
is_insight evt = evt.source == "security" && evt.alert_type == "dangerous_configuration"

key-is_insight :
    (id : String) (evts : List Event)
    → all (λ evt. is_insight evt || not (event_key evt == insight_key id)) evts ≡ true
key-is_insight id [] = refl
key-is_insight id (evt ∷ evts) = ground (arith, key-is_insight id evts)

-- A container whose settings are safe has no active alert on them: if the engine receives, of the
-- security of settings, exactly the events that a run of discoveries makes, among any others, then
-- the alert of a container is active afterwards only if the settings it had last are dangerous
-- (privileged, on the host's network, or with a port bound on all interfaces) or, where the run
-- does not see it, the service held insights on it before; this given that the alert is active
-- before only where the service holds insights, and that the callback is set.
pub sync_all-dangerous :
    (texts : Texts) (syncs : List Sync) (s : Service) (id : String) (evts : List (Deps × Event))
    (e : Engine)
    → IsKeyed e
    → s.has_alert ≡ true
    → select is_insight (events_of evts) ≡ (sync_all texts syncs s).1
    → (not (stands e (insight_key id)) || is_flagged s id) ≡ true
    → (not (stands (run evts e).0 (insight_key id)) || last_dangerous id (is_flagged s id) syncs)
      ≡ true
sync_all-dangerous texts syncs s id evts e h a q l =
    let k = insight_key id in
    let b = is_flagged s id in
    subst (λ b. (not (stands (run evts e).0 k) || b) ≡ true)
      (sym (opened-select is_insight k b (events_of evts) (key-is_insight id (events_of evts)))
        ∙ ap (opened k b) q
        ∙ (sync_all-opened texts syncs s id a).1)
      (run-opened evts e k b h l)
