-- ===== src/Security/Insights.antt =====
-- internal/security/model.go, analyzer.go and service.go: what is dangerous in a container's
-- settings, and the service that keeps it and calls back when it changes. A Go map is an
-- association list; `Title` and `Description`, which only people read, are left out, and so are the
-- calls of the logger.
pub mod Docker
pub mod Discovery
pub mod Alerts
use pulseboard.Common.{
  ℕ, String, string_eq, Bool, true, false, not, ◌&&◌, ◌||◌, Option, none, some, List, [], ◌∷◌, ◌++◌,
  ◌==◌, eqb, ltb, length, all, if◌then◌else◌,
}
use pulseboard.Common.Assoc.{lookup, insert, delete}

abbrev pub severity_critical : String
severity_critical = "critical"

abbrev pub severity_high : String
severity_high = "high"

abbrev pub severity_medium : String
severity_medium = "medium"

abbrev pub port_exposed_all_interfaces : String
port_exposed_all_interfaces = "port_exposed_all_interfaces"

abbrev pub database_port_exposed : String
database_port_exposed = "database_port_exposed"

abbrev pub privileged_container : String
privileged_container = "privileged_container"

abbrev pub host_network_mode : String
host_network_mode = "host_network_mode"

-- A value of `Details`.
pub data Detail : Type 0 where
  number : ℕ → Detail
  text : String → Detail

pub record Insight : Type 0 where
  pub insight_type : String
  pub severity : String
  pub container_id : String
  pub container_name : String
  pub details : List (String × Detail)
  pub detected_at : ℕ

abbrev pub severity_rank : String → ℕ
severity_rank s =
    if s == severity_critical
    then 3
    else (if s == severity_high then 2 else (if s == severity_medium then 1 else 0))

-- The loop of HighestSeverity.
unfoldable pub highest_from : String → List Insight → String
highest_from best [] = best
highest_from best (i ∷ insights) =
    highest_from (if ltb (severity_rank best) (severity_rank i.severity) then i.severity else best)
      insights

abbrev pub highest_severity : List Insight → String
highest_severity insights = highest_from "" insights

abbrev pub Types : Type 0
Types = List (String × Bool)

-- `newTypes[i.Type] = true` for every insight
unfoldable pub type_set : List Insight → Types → Types
type_set [] types = types
type_set (i ∷ insights) types = type_set insights (insert i.insight_type true types)

abbrev pub or_false : Option Bool → Bool
or_false none = false
or_false (some b) = b

-- `old[t]` for every key `t`
unfoldable pub all_in : Types → Types → Bool
all_in [] old = true
all_in ((t, b) ∷ types) old = or_false (lookup t old) && all_in types old

abbrev pub has_change : Types → Types → Bool
has_change old new =
    not (eqb (length old) (length new)) || (not (all_in new old) || not (all_in old new))

-- Service: the callbacks that are set, and the two maps.
pub record Service : Type 0 where
  pub has_alert : Bool
  pub has_event : Bool
  pub store : List (String × List Insight)
  pub previous : List (String × Types)

-- A call of a callback. The last field of an event is `change`.
pub data Call : Type 0 where
  on_alert : String → String → List Insight → Bool → Call
  on_changed : String → String → String → ℕ → String → Call
  on_resolved : String → String → Call

abbrev pub or_empty {ℓ} : {A : Type ℓ} → Option (List A) → List A
or_empty none = []
or_empty (some l) = l

abbrev pub is_empty {ℓ} : {A : Type ℓ} → List A → Bool
is_empty [] = true
is_empty (x ∷ l) = false

abbrev pub call_if : Bool → Call → List Call
call_if b call = if b then call ∷ [] else []

-- What UpdateContainer calls after it has changed the maps.
abbrev pub calls : Service → String → String → List Insight → Bool → Bool → List Call
calls s id name new had changed =
    if not changed
    then []
    else (if not (is_empty new)
        then call_if s.has_alert (on_alert id name new false)
          ++ call_if s.has_event (
              on_changed id name (highest_severity new) (length new)
                (if had then "updated" else "new"))
        else (if had
            then call_if s.has_alert (on_alert id name [] true)
              ++ call_if s.has_event (on_resolved id name)
            else []))

unfoldable pub update_container : String → String → List Insight → Service → Service × List Call
update_container id name new s =
    let old_types = or_empty (lookup id s.previous) in
    let new_types = type_set new [] in
    let had = not (is_empty old_types) in
    let changed = has_change old_types new_types in
    (
      record s {
        store = if is_empty new then delete id s.store else insert id new s.store;
        previous = if is_empty new then delete id s.previous else insert id new_types s.previous;
      },
      calls s id name new had changed,
    )

abbrev pub new_service : Bool → Bool → Service
new_service has_alert has_event = record {
  has_alert = has_alert;
  has_event = has_event;
  store = [];
  previous = [];
}

abbrev pub remove_container : String → Service → Service
remove_container id s = record s { store = delete id s.store; previous = delete id s.previous }

pub record ContainerInsights : Type 0 where
  pub container_id : String
  pub container_name : String
  pub highest : Option String
  pub count : ℕ
  pub insights : List Insight

abbrev pub gathered : String → List Insight → ContainerInsights
gathered id [] = record {
  container_id = id;
  container_name = "";
  highest = none;
  count = 0;
  insights = [];
}
gathered id (i ∷ rest) = record {
  container_id = id;
  container_name = i.container_name;
  highest = some (highest_severity (i ∷ rest));
  count = length (i ∷ rest);
  insights = i ∷ rest;
}

abbrev pub get_container_insights : Service → String → ContainerInsights
get_container_insights s id = gathered id (or_empty (lookup id s.store))

abbrev pub insight_count : Service → String → ℕ × String
insight_count s id =
    let insights = or_empty (lookup id s.store) in
    if is_empty insights then (0, "") else (length insights, highest_severity insights)
