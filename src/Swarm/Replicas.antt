-- ===== src/Swarm/Replicas.antt =====
-- ReplicaHealthChecker of internal/swarm/alerts.go. Times are nanoseconds. A state is a pointer in Go:
-- where the code changes it, the model writes the entry again. The event for the browser beside an
-- alert repeats its fields and is left out.
pub mod Services
pub mod Notices
use pulseboard.Common.{
  ℕ, ◌+◌, ◌-◌, ◌*◌, String, string_eq, Bool, true, false, not, ◌&&◌, ◌||◌, Option, none, some, List,
  [], ◌∷◌, ◌++◌, ◌==◌, ltb, leb, eqb, contains, if◌then◌else◌,
}
use pulseboard.Common.Assoc.{lookup, insert, delete}
use pulseboard.Alert.Model.{severity_warning, severity_info, Event}

pub record ReplicaState : Type 0 where
  pub first_seen : ℕ
  pub alerted : Bool

-- What the checker reads of SwarmService.
pub record SwarmService : Type 0 where
  pub service_id : String
  pub name : String
  pub mode : String
  pub desired_replicas : ℕ
  pub running_replicas : ℕ

abbrev pub default_replica_alert_delay : ℕ
default_replica_alert_delay = 5 * 60000000000

abbrev pub States : Type 0
States = List (String × ReplicaState)

-- The texts that only people read.
pub record Texts : Type 0 where
  pub message : SwarmService → String
  pub restored : String → String
  pub details : String → String

-- emitAlert
abbrev pub replica_event : Texts → ℕ → SwarmService → Event
replica_event texts now svc = record {
  source = "swarm";
  alert_type = "replica_unhealthy";
  severity = severity_warning;
  is_recover = false;
  message = texts.message svc;
  entity_type = "swarm_service";
  entity_id = "";
  entity_name = svc.name;
  details = some (texts.details svc.service_id);
  timestamp = now;
}

-- emitRecovery
abbrev pub restored_event : Texts → ℕ → String → String → Event
restored_event texts now id name = record {
  source = "swarm";
  alert_type = "replica_unhealthy";
  severity = severity_info;
  is_recover = true;
  message = texts.restored name;
  entity_type = "swarm_service";
  entity_id = "";
  entity_name = name;
  details = some (texts.details id);
  timestamp = now;
}

abbrev pub recover_from :
    Texts → ℕ → String → String → States → Option ReplicaState → States × List Event
recover_from texts now id name states none = (states, [])
recover_from texts now id name states (some state) =
    (delete id states, if state.alerted then restored_event texts now id name ∷ [] else [])

unfoldable pub recover : Texts → ℕ → String → String → States → States × List Event
recover texts now id name states = recover_from texts now id name states (lookup id states)

abbrev pub under_replicated :
    Texts → ℕ → ℕ → SwarmService → States → Option ReplicaState → States × List Event
under_replicated texts delay now svc states none =
    (insert svc.service_id (record { first_seen = now; alerted = false }) states, [])
under_replicated texts delay now svc states (some state) =
    if not state.alerted && leb delay (now - state.first_seen)
    then (
      insert svc.service_id (record state { alerted = true }) states,
      replica_event texts now svc ∷ [],
    )
    else (states, [])

-- One turn of the first loop of Check.
unfoldable pub check_service : Texts → ℕ → ℕ → SwarmService → States → States × List Event
check_service texts delay now svc states =
    if not (svc.mode == "replicated") || eqb svc.desired_replicas 0
    then recover texts now svc.service_id svc.name states
    else (if ltb svc.running_replicas svc.desired_replicas
        then under_replicated texts delay now svc states (lookup svc.service_id states)
        else recover texts now svc.service_id svc.name states)

unfoldable pub check_services : Texts → ℕ → ℕ → List SwarmService → States → States × List Event
check_services texts delay now [] states = (states, [])
check_services texts delay now (svc ∷ services) states =
    let done = check_service texts delay now svc states in
    let rest = check_services texts delay now services done.0 in (rest.0, done.1 ++ rest.1)

abbrev pub ids_of : List SwarmService → List String
ids_of [] = []
ids_of (svc ∷ services) = svc.service_id ∷ ids_of services

-- The last loop: what is not in the list is forgotten.
unfoldable pub clean_up : List String → States → States
clean_up active [] = []
clean_up active (entry ∷ states) =
    let rest = clean_up active states in if contains active entry.0 then entry ∷ rest else rest

-- Check
unfoldable pub check : Texts → ℕ → ℕ → List SwarmService → States → States × List Event
check texts delay now services states =
    let done = check_services texts delay now services states in
    (clean_up (ids_of services) done.0, done.1)
