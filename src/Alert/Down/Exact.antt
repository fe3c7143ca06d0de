-- ===== src/Alert/Down/Exact.antt =====
-- The events of a pass, container by container.
use pulseboard.Common.{
  ℕ, String, string_eq, Bool, true, false, not, ◌&&◌, ◌||◌, Option, none, some, List, [], ◌∷◌, ◌==◌,
  ◌≡◌, refl, ◌∙◌, ap, arith, any, if◌then◌else◌, eq_iff, ==_refl, ==→≡, Bool-cases, inl, inr,
}
use pulseboard.Common.Assoc.{lookup, insert, lookup-insert}
use pulseboard.Alert.Model.{Event, Alert, ActiveAlertKey, key_eq}
use pulseboard.Alert.Engine.Standing.{opened, opened-append}
use pulseboard.Alert.Down.{
  alert_type_container_down, Container, is_down_past, known_map, down_map, is_firing, firing_map,
  Texts, has, fire_events, recovery_events, check,
}

abbrev pub down_key : String → ActiveAlertKey
down_key id = record {
  source = "container";
  alert_type = alert_type_container_down;
  entity_type = "container";
  entity_id = id;
}

-- A container stands under its own id.
abbrev own_keys : List (String × Container) → Bool
own_keys [] = true
own_keys ((id, c) ∷ m) = id == c.id && own_keys m

insert-own_keys :
    (c : Container) (m : List (String × Container))
    → own_keys m ≡ true
    → own_keys (insert c.id c m) ≡ true
unfolding insert
insert-own_keys c [] h = ground (arith, ==_refl c.id)
insert-own_keys c ((id, x) ∷ m) h = ground (arith, h, ==_refl c.id, insert-own_keys c m)

down_map-own_keys :
    (after now : ℕ) (cs : List Container) (m : List (String × Container))
    → own_keys m ≡ true
    → own_keys (down_map after now cs m) ≡ true
unfolding down_map
down_map-own_keys after now [] m h = h
down_map-own_keys after now (c ∷ cs) m h =
    down_map-own_keys after now cs _ (ground (arith, h, insert-own_keys c m h))

lookup-down_map :
    (after now : ℕ) (cs : List Container) (m : List (String × Container)) (id : String)
    → has (lookup id (down_map after now cs m))
      ≡ (any (λ c. c.id == id && is_down_past after now c) cs || has (lookup id m))
unfolding down_map
lookup-down_map after now [] m id = refl
lookup-down_map after now (c ∷ cs) m id = ground (
  arith,
  lookup-down_map after now cs (if is_down_past after now c then insert c.id c m else m) id,
  lookup-insert c.id id c m,
)

lookup-firing_map :
    (l : List Alert) (m : List (String × Alert)) (id : String)
    → has (lookup id (firing_map l m))
      ≡ (any (λ a. a.entity_id == id && is_firing a) l || has (lookup id m))
unfolding firing_map
lookup-firing_map [] m id = refl
lookup-firing_map (a ∷ l) m id = ground (
  arith,
  lookup-firing_map l (if is_firing a then insert a.entity_id a m else m) id,
  lookup-insert a.entity_id id a m,
)

opened-fire_events :
    (texts : Texts) (now : ℕ) (firing : List (String × Alert)) (down : List (String × Container))
    (id : String) (b : Bool)
    → own_keys down ≡ true
    → opened (down_key id) b (fire_events texts now firing down)
      ≡ (b || (has (lookup id down) && not (has (lookup id firing))))
unfolding fire_events lookup
opened-fire_events texts now firing [] id b h = ground arith
opened-fire_events texts now firing ((j, c) ∷ down) id b h = elim (Bool-cases (j == id)) [
  | inl e ↦ ground (
    arith,
    e,
    h,
    eq_iff j c.id,
    eq_iff c.id id,
    eq_iff j id,
    ap (λ x. has (lookup x firing)) (==→≡ j id e),
    opened-fire_events texts now firing down id b,
    opened-fire_events texts now firing down id true,
  )
  | inr f ↦ ground (
    arith,
    f,
    h,
    eq_iff j c.id,
    eq_iff c.id id,
    eq_iff j id,
    opened-fire_events texts now firing down id b,
  )
]

opened-recovery_events :
    (texts : Texts) (now : ℕ) (known down : List (String × Container))
    (firing : List (String × Alert)) (id : String) (b : Bool)
    → opened (down_key id) b (recovery_events texts now known down firing)
      ≡ (b && not (has (lookup id firing) && not (has (lookup id down))))
unfolding recovery_events lookup
opened-recovery_events texts now known down [] id b = ground arith
opened-recovery_events texts now known down ((j, a) ∷ firing) id b = elim (Bool-cases (j == id)) [
  | inl e ↦ ground (
    arith,
    e,
    ap (λ x. has (lookup x down)) (==→≡ j id e),
    opened-recovery_events texts now known down firing id b,
    opened-recovery_events texts now known down firing id false,
  )
  | inr f ↦ ground (arith, f, opened-recovery_events texts now known down firing id b)
]

abbrev pub events_or_none : Option (List Event) → List Event
events_or_none none = []
events_or_none (some evts) = evts

-- After a pass whose two lists the store gives, the alert of each container is where it should be:
-- the last event under its key, or whether it fires where there is none, says that it is active
-- exactly if a container with this id has been down for the time.
pub check-opened :
    (texts : Texts) (after now : ℕ) (cs : List Container) (active : List Alert) (id : String)
    → opened
        (down_key id)
        (any (λ a. a.entity_id == id && is_firing a) active)
        (events_or_none (check texts after now (some cs) (some active)))
      ≡ any (λ c. c.id == id && is_down_past after now c) cs
unfolding check lookup
check-opened texts after now cs active id =
    let down = down_map after now cs [] in
    let firing = firing_map active [] in
    let b = any (λ a. a.entity_id == id && is_firing a) active in
    opened-append (down_key id) b (fire_events texts now firing down) _
    ∙ ground (
      arith,
      opened-fire_events texts now firing down id b (down_map-own_keys after now cs [] refl),
      opened-recovery_events texts now (known_map cs []) down firing id
          (opened (down_key id) b (fire_events texts now firing down)),
      lookup-down_map after now cs [] id,
      lookup-firing_map active [] id,
    )
