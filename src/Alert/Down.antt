-- ===== src/Alert/Down.antt =====
-- DownDetector of internal/alert/down.go: one pass over the containers and the active alerts of the
-- store. Times are nanoseconds; a pass over a map takes its entries in the order of the model's list.
pub mod Exact
use pulseboard.Common.{
  ℕ, ◌-◌, String, string_eq, Bool, true, false, not, ◌&&◌, ◌||◌, Option, none, some, List, [], ◌∷◌,
  ◌++◌, ◌==◌, leb, if◌then◌else◌,
}
use pulseboard.Common.Assoc.{lookup, insert}
use pulseboard.Alert.Model.{severity_critical, severity_warning, severity_info, Event, Alert}

pub data ContainerState : Type 0 where
  running exited completed restarting paused created dead : ContainerState

pub data ContainerSeverity : Type 0 where
  critical warning info : ContainerSeverity

pub record Container : Type 0 where
  pub id : String
  pub name : String
  pub state : ContainerState
  pub alert_severity : ContainerSeverity
  pub last_state_change_at : ℕ

abbrev pub alert_type_container_down : String
alert_type_container_down = "container_down"

abbrev pub is_down : ContainerState → Bool
is_down exited = true
is_down dead = true
is_down _ = false

abbrev pub is_down_past : ℕ → ℕ → Container → Bool
is_down_past after now c = is_down c.state && leb after (now - c.last_state_change_at)

unfoldable pub down_severity : ContainerSeverity → String
down_severity info = severity_info
down_severity warning = severity_warning
down_severity critical = severity_critical

-- The maps `known`, `down` and `firing`.
unfoldable pub known_map : List Container → List (String × Container) → List (String × Container)
known_map [] known = known
known_map (c ∷ cs) known = known_map cs (insert c.id c known)

unfoldable pub down_map :
    ℕ → ℕ → List Container → List (String × Container) → List (String × Container)
down_map after now [] down = down
down_map after now (c ∷ cs) down =
    down_map after now cs (if is_down_past after now c then insert c.id c down else down)

abbrev pub is_firing : Alert → Bool
is_firing a = a.alert_type == alert_type_container_down && a.entity_type == "container"

unfoldable pub firing_map : List Alert → List (String × Alert) → List (String × Alert)
firing_map [] firing = firing
firing_map (a ∷ l) firing =
    firing_map l (if is_firing a then insert a.entity_id a firing else firing)

-- The texts that only people read.
pub record Texts : Type 0 where
  pub message : Container → String
  pub details : Container → String
  pub recovery : String → String

abbrev pub down_event : Texts → ℕ → Container → Event
down_event texts now c = record {
  source = "container";
  alert_type = alert_type_container_down;
  severity = down_severity c.alert_severity;
  is_recover = false;
  message = texts.message c;
  entity_type = "container";
  entity_id = c.id;
  entity_name = c.name;
  details = some (texts.details c);
  timestamp = now;
}

abbrev pub back_up_event : Texts → ℕ → String → String → Event
back_up_event texts now id name = record {
  source = "container";
  alert_type = alert_type_container_down;
  severity = severity_info;
  is_recover = true;
  message = texts.recovery name;
  entity_type = "container";
  entity_id = id;
  entity_name = name;
  details = none;
  timestamp = now;
}

abbrev pub has {ℓ} : {A : Type ℓ} → Option A → Bool
has none = false
has (some a) = true

abbrev name_of : Alert → Option Container → String
name_of a none = a.entity_name
name_of a (some c) = c.name

unfoldable pub fire_events :
    Texts → ℕ → List (String × Alert) → List (String × Container) → List Event
unfolding lookup
fire_events texts now firing [] = []
fire_events texts now firing ((id, c) ∷ down) =
    let rest = fire_events texts now firing down in
    if has (lookup id firing) then rest else down_event texts now c ∷ rest

unfoldable pub recovery_events :
    Texts
    → ℕ
    → List (String × Container)
    → List (String × Container)
    → List (String × Alert)
    → List Event
unfolding lookup
recovery_events texts now known down [] = []
recovery_events texts now known down ((id, a) ∷ firing) =
    let rest = recovery_events texts now known down firing in
    if has (lookup id down)
    then rest
    else back_up_event texts now id (name_of a (lookup id known)) ∷ rest

-- Check; `none` is a list that the store does not give.
unfoldable pub check :
    Texts → ℕ → ℕ → Option (List Container) → Option (List Alert) → Option (List Event)
unfolding known_map down_map firing_map fire_events recovery_events
check texts after now none active = none
check texts after now (some containers) none = none
check texts after now (some containers) (some active) =
    let known = known_map containers [] in
    let down = down_map after now containers [] in
    let firing = firing_map active [] in
    some (fire_events texts now firing down ++ recovery_events texts now known down firing)
