-- ===== src/Checks/SwarmRuns.antt =====
-- Nodes that go and come back, a quorum that is lost, and replicas that are missing.
use pulseboard.Common.{
  ℕ, ◌+◌, String, string_eq, true, false, none, some, List, [], ◌∷◌, ◌≡◌, refl, length,
}
use pulseboard.Common.Assoc.{lookup, insert, delete}
use pulseboard.Alert.Model.{Event}
use pulseboard.Alert.Deps.{Deps}
use pulseboard.Alert.Engine.{run, process_event}
use pulseboard.Alert.Engine.Invariant.{start, start-IsKeyed, run-IsKeyed}
use pulseboard.Alert.Engine.Standing.{stands, opened}
use pulseboard.Swarm.Nodes as Nodes
use pulseboard.Swarm.Nodes.{
  DockerNode, Table, Faults, Pass, detect_transitions, check_quorum, reconcile_node,
  reconcile_nodes, reconcile, managers, reconcile_all, upsert_node, task_count_of,
}
use pulseboard.Swarm.Nodes.Transitions.{node_key, Finding, observe, observe-last}
use pulseboard.Swarm.Nodes.Quorum.{quorum_key, reconcile_all-stands}
use pulseboard.Swarm.Replicas as Replicas
use pulseboard.Swarm.Replicas.{
  SwarmService, States, check, ids_of, default_replica_alert_delay, replica_event, check_services,
  check_service, clean_up, recover,
}
use pulseboard.Swarm.Replicas.Services.{state_after, service_of}
use pulseboard.Swarm.Replicas.Notices.{all_notices, check-all_notices}
use pulseboard.Checks.AlertRuns.{on_desk}

abbrev node_texts : Nodes.Texts
node_texts = record { message = λ t n. n.hostname; details = λ o n. n.status; quorum = λ r t. "" }

abbrev works : Faults
works = record { get_node = λ id. false; upsert_node = λ id. false }

abbrev manager : String → String → String → DockerNode
manager id state availability = record {
  id = id;
  hostname = id;
  role = "manager";
  state = state;
  availability = availability;
  engine_version = "28";
  addr = "10.0.0.1";
}

abbrev first_pass : Pass
first_pass = record {
  faults = works;
  now = 1;
  nodes = some (
      manager "m1" "ready" "active"
      ∷ manager "m2" "ready" "active"
      ∷ manager "m3" "ready" "active"
      ∷ []);
  tasks = none;
}

-- Two of three managers are gone.
abbrev lost_pass : Pass
lost_pass = record first_pass {
  now = 2;
  nodes = some (
      manager "m1" "ready" "active"
      ∷ manager "m2" "down" "active"
      ∷ manager "m3" "down" "active"
      ∷ []);
}

abbrev known : Table
known = (reconcile_all node_texts (first_pass ∷ []) []).0

abbrev degraded : List Event
degraded = (reconcile_all node_texts (lost_pass ∷ []) known).1

abbrev lost : Table
lost = (reconcile_all node_texts (lost_pass ∷ []) known).0

two_down_and_no_quorum : length degraded ≡ 3
unfolding reconcile_all reconcile reconcile_nodes reconcile_node upsert_node detect_transitions
    check_quorum managers lookup insert
two_down_and_no_quorum = refl

abbrev restored_events : List (Deps × Event)
restored_events = on_desk (reconcile_all node_texts (first_pass ∷ first_pass ∷ []) lost).1

reconcile_all-stands_example :
    stands (run restored_events (run (on_desk degraded) start).0).0 quorum_key ≡ true
unfolding reconcile_all reconcile reconcile_nodes reconcile_node upsert_node detect_transitions
    check_quorum managers lookup insert run process_event task_count_of
reconcile_all-stands_example =
    reconcile_all-stands node_texts (first_pass ∷ first_pass ∷ []) lost restored_events
      (run (on_desk degraded) start).0 (run-IsKeyed (on_desk degraded) start start-IsKeyed) refl
      refl

abbrev m2_found : List Finding
m2_found =
    (3, [], manager "m2" "down" "drain")
    ∷ (4, [], manager "m2" "disconnected" "drain")
    ∷ (5, [], manager "m2" "ready" "active")
    ∷ []

abbrev m2_row : Nodes.SwarmNode
m2_row = Nodes.new_node 1 [] (manager "m2" "ready" "active")

observe-last_example :
    (opened (node_key "node_down") false (observe node_texts works m2_found known).1 ≡ false)
    × (opened (node_key "node_drain") false (observe node_texts works m2_found known).1 ≡ false)
unfolding reconcile_all reconcile reconcile_nodes reconcile_node upsert_node lookup insert
    task_count_of
observe-last_example =
    observe-last node_texts works "m2" m2_found known m2_row refl refl refl refl refl

abbrev replica_texts : Replicas.Texts
replica_texts = record { message = λ s. s.name; restored = λ s. s; details = λ s. s }

abbrev service : String → ℕ → SwarmService
service id running = record {
  service_id = id;
  name = id;
  mode = "replicated";
  desired_replicas = 2;
  running_replicas = running;
}

-- "a" misses a replica from the first check on, "b" does not.
abbrev first_check : States
first_check =
    (check replica_texts default_replica_alert_delay 1 (service "a" 1 ∷ service "b" 2 ∷ []) []).0

abbrev five_minutes_later : ℕ
five_minutes_later = default_replica_alert_delay + 1

one_alert :
    (check replica_texts default_replica_alert_delay five_minutes_later
      (service "a" 1 ∷ service "b" 1 ∷ [])
      first_check).1
    ≡ replica_event replica_texts five_minutes_later (service "a" 1) ∷ []
unfolding check check_services check_service clean_up recover lookup insert delete
one_alert = refl

check-all_notices_example :
    let services = service "b" 1 ∷ service "a" 1 ∷ [] in
    ((k : String)
      → lookup k
          (check replica_texts default_replica_alert_delay five_minutes_later services
            first_check).0
        ≡ state_after default_replica_alert_delay five_minutes_later
            (service_of k services)
            (lookup k first_check))
    × ((check replica_texts default_replica_alert_delay five_minutes_later services first_check).1
        ≡ all_notices replica_texts default_replica_alert_delay five_minutes_later
            (λ k. lookup k first_check)
            services)
check-all_notices_example =
    check-all_notices replica_texts default_replica_alert_delay five_minutes_later
      (service "b" 1 ∷ service "a" 1 ∷ []) first_check refl
