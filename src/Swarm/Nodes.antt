-- ===== src/Swarm/Nodes.antt =====
-- NodeService of internal/swarm/node.go, and the query UpsertNode of internal/store/swarm_node.go.
-- Docker's answers are parameters, `none` is an error. A node stands under its id; AgentID, which is
-- the same for all here, and the row's own id are left out.
pub mod Quorum
pub mod Transitions
use pulseboard.Common.{
  ℕ, suc, ◌+◌, ◌/◌, String, string_eq, Bool, true, false, not, ◌&&◌, ◌||◌, Option, none, some, List,
  [], ◌∷◌, ◌++◌, ◌==◌, ltb, if◌then◌else◌,
}
use pulseboard.Common.Assoc.{lookup, insert}
use pulseboard.Alert.Model.{severity_critical, severity_warning, severity_info, Event}

pub record SwarmNode : Type 0 where
  pub node_id : String
  pub hostname : String
  pub role : String
  pub status : String
  pub availability : String
  pub engine_version : String
  pub address : String
  pub task_count : ℕ
  pub first_seen_at : ℕ
  pub last_seen_at : ℕ
  pub last_status_change_at : ℕ

-- What the code reads of swarm.Node and swarm.Task.
pub record DockerNode : Type 0 where
  pub id : String
  pub hostname : String
  pub role : String
  pub state : String
  pub availability : String
  pub engine_version : String
  pub addr : String

pub record DockerTask : Type 0 where
  pub node_id : String
  pub state : String

abbrev pub Table : Type 0
Table = List (String × SwarmNode)

-- Which calls of the store fail, by the id of the node.
pub record Faults : Type 0 where
  pub get_node : String → Bool
  pub upsert_node : String → Bool

-- INSERT ... ON CONFLICT(agent_id, node_id) DO UPDATE
abbrev pub merged : SwarmNode → Option SwarmNode → SwarmNode
merged node none = node
merged node (some row) = record node {
  first_seen_at = row.first_seen_at;
  last_status_change_at =
      if not (row.status == node.status) || not (row.availability == node.availability)
      then node.last_status_change_at
      else row.last_status_change_at;
}

unfoldable pub upsert_node : SwarmNode → Table → Table
upsert_node node table = insert node.node_id (merged node (lookup node.node_id table)) table

-- The texts that only people read.
pub record Texts : Type 0 where
  pub message : String → SwarmNode → String
  pub details : SwarmNode → SwarmNode → String
  pub quorum : ℕ → ℕ → String

abbrev pub node_event : Texts → ℕ → String → String → Bool → SwarmNode → SwarmNode → Event
node_event texts now alert_type severity is_recover old current = record {
  source = "swarm";
  alert_type = alert_type;
  severity = severity;
  is_recover = is_recover;
  message = texts.message alert_type current;
  entity_type = "swarm_node";
  entity_id = "";
  entity_name = current.hostname;
  details = some (texts.details old current);
  timestamp = now;
}

abbrev pub is_gone : String → Bool
is_gone status = status == "down" || status == "disconnected"

abbrev pub event_if : Bool → Event → List Event
event_if b evt = if b then evt ∷ [] else []

-- detectTransitions: the alerts; the event for the browser says that something changed.
unfoldable pub detect_transitions : Texts → ℕ → SwarmNode → SwarmNode → List Event
detect_transitions texts now old current =
    let status_changed = not (old.status == current.status) in
    let avail_changed = not (old.availability == current.availability) in
    if not status_changed && not avail_changed
    then []
    else event_if (status_changed && (old.status == "ready" && is_gone current.status))
        (node_event texts now "node_down" severity_critical false old current)
      ++ (event_if (status_changed && (is_gone old.status && current.status == "ready"))
            (node_event texts now "node_down" severity_info true old current)
          ++ (event_if
                (avail_changed
                  && (current.availability == "drain" && not (old.availability == "drain")))
                (node_event texts now "node_drain" severity_warning false old current)
              ++ event_if
                  (avail_changed
                    && (old.availability == "drain" && not (current.availability == "drain")))
                  (node_event texts now "node_drain" severity_info true old current)))

-- checkQuorum
unfoldable pub check_quorum : Texts → ℕ → ℕ → ℕ → List Event
check_quorum texts now total ready = event_if (ltb ready (total / 2 + 1)) (record {
  source = "swarm";
  alert_type = "quorum_degraded";
  severity = severity_critical;
  is_recover = false;
  message = texts.quorum ready total;
  entity_type = "swarm_cluster";
  entity_id = "";
  entity_name = "swarm";
  details = some (texts.quorum ready total);
  timestamp = now;
})

unfoldable pub task_count_of : List DockerTask → String → ℕ
task_count_of [] id = 0
task_count_of (t ∷ tasks) id =
    (if t.state == "running" && t.node_id == id then 1 else 0) + task_count_of tasks id

-- Without the list of tasks every count is 0.
abbrev pub tasks_or_none : Option (List DockerTask) → List DockerTask
tasks_or_none none = []
tasks_or_none (some tasks) = tasks

abbrev pub new_node : ℕ → List DockerTask → DockerNode → SwarmNode
new_node now tasks n = record {
  node_id = n.id;
  hostname = n.hostname;
  role = n.role;
  status = n.state;
  availability = n.availability;
  engine_version = n.engine_version;
  address = n.addr;
  task_count = task_count_of tasks n.id;
  first_seen_at = now;
  last_seen_at = now;
  last_status_change_at = now;
}

abbrev pub seen_since : SwarmNode → Option SwarmNode → SwarmNode
seen_since node none = node
seen_since node (some old) = record node { first_seen_at = old.first_seen_at }

abbrev pub transitions_from : Texts → ℕ → SwarmNode → Option SwarmNode → List Event
transitions_from texts now node none = []
transitions_from texts now node (some old) =
    detect_transitions texts now old (seen_since node (some old))

-- One turn of the loop of Reconcile.
unfoldable pub reconcile_node :
    Texts → Faults → ℕ → List DockerTask → DockerNode → Table → Table × List Event
reconcile_node texts f now tasks n table =
    let existing = lookup n.id table in
    let node = new_node now tasks n in
    if f.get_node n.id then (table, []) else (
      if f.upsert_node n.id then table else upsert_node (seen_since node existing) table,
      transitions_from texts now node existing,
    )

unfoldable pub reconcile_nodes :
    Texts → Faults → ℕ → List DockerTask → List DockerNode → Table → Table × List Event
reconcile_nodes texts f now tasks [] table = (table, [])
reconcile_nodes texts f now tasks (n ∷ nodes) table =
    let done = reconcile_node texts f now tasks n table in
    let rest = reconcile_nodes texts f now tasks nodes done.0 in (rest.0, done.1 ++ rest.1)

unfoldable pub managers : (DockerNode → Bool) → List DockerNode → ℕ
managers p [] = 0
managers p (n ∷ nodes) = (if n.role == "manager" && p n then 1 else 0) + managers p nodes

abbrev pub reconcile_with :
    Texts
    → Faults
    → ℕ
    → Option (List DockerTask)
    → Option (List DockerNode)
    → Table
    → Table × List Event
reconcile_with texts f now tasks none table = (table, [])
reconcile_with texts f now tasks (some nodes) table =
    let done = reconcile_nodes texts f now (tasks_or_none tasks) nodes table in
    let total = managers (λ n. true) nodes in
    let ready = managers (λ n. n.state == "ready") nodes in
    (done.0, done.1 ++ (if ltb 0 total then check_quorum texts now total ready else []))

-- Reconcile; without the list of nodes it returns an error.
pub record Pass : Type 0 where
  pub faults : Faults
  pub now : ℕ
  pub nodes : Option (List DockerNode)
  pub tasks : Option (List DockerTask)

unfoldable pub reconcile : Texts → Pass → Table → Table × List Event
reconcile texts p table = reconcile_with texts p.faults p.now p.tasks p.nodes table

unfoldable pub reconcile_all : Texts → List Pass → Table → Table × List Event
reconcile_all texts [] table = (table, [])
reconcile_all texts (p ∷ passes) table =
    let done = reconcile texts p table in
    let rest = reconcile_all texts passes done.0 in (rest.0, done.1 ++ rest.1)
