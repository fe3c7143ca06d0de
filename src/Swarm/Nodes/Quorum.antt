-- ===== src/Swarm/Nodes/Quorum.antt =====
-- The alert on the quorum of the managers.
use pulseboard.Common.{
  ℕ, string_eq, Bool, true, not, ◌&&◌, ◌||◌, Option, none, some, List, [], ◌∷◌, ◌++◌, ◌==◌, ◌≡◌,
  refl, ◌∙◌, ap, arith, all, all-append, select,
}
use pulseboard.Alert.Model.{Event, ActiveAlertKey, key_eq, event_key}
use pulseboard.Alert.Deps.{Deps}
use pulseboard.Alert.Engine.{Engine, run}
use pulseboard.Alert.Engine.Invariant.{IsKeyed}
use pulseboard.Alert.Engine.Standing.{stands, events_of, recovers, run-stands, all-recovers-select}
use pulseboard.Common.Assoc.{lookup}
use pulseboard.Swarm.Nodes.{
  SwarmNode, DockerNode, DockerTask, Table, Faults, Texts, Pass, detect_transitions, check_quorum,
  transitions_from, reconcile_node, reconcile_nodes, reconcile_with, reconcile, reconcile_all,
  tasks_or_none, new_node, seen_since,
}

abbrev pub quorum_key : ActiveAlertKey
quorum_key = record {
  source = "swarm";
  alert_type = "quorum_degraded";
  entity_type = "swarm_cluster";
  entity_id = "";
}

abbrev is_quiet : List Event → Bool
is_quiet evts = all (λ evt. not (recovers quorum_key evt)) evts

detect_transitions-is_quiet :
    (texts : Texts) (now : ℕ) (old current : SwarmNode)
    → is_quiet (detect_transitions texts now old current) ≡ true
unfolding detect_transitions
detect_transitions-is_quiet texts now old current = ground arith

transitions_from-is_quiet :
    (texts : Texts) (now : ℕ) (node : SwarmNode) (o : Option SwarmNode)
    → is_quiet (transitions_from texts now node o) ≡ true
transitions_from-is_quiet texts now node none = refl
transitions_from-is_quiet texts now node (some old) =
    detect_transitions-is_quiet texts now old (seen_since node (some old))

append-is_quiet :
    (xs ys : List Event) → is_quiet xs ≡ true → is_quiet ys ≡ true → is_quiet (xs ++ ys) ≡ true
append-is_quiet xs ys h k =
    all-append (λ evt. not (recovers quorum_key evt)) xs ys ∙ ground (arith, h, k)

reconcile_node-is_quiet :
    (texts : Texts) (f : Faults) (now : ℕ) (tasks : List DockerTask) (n : DockerNode)
    (table : Table)
    → is_quiet (reconcile_node texts f now tasks n table).1 ≡ true
unfolding reconcile_node
reconcile_node-is_quiet texts f now tasks n table =
    let node = new_node now tasks n in
    ground (arith, transitions_from-is_quiet texts now node (lookup n.id table))

reconcile_nodes-is_quiet :
    (texts : Texts) (f : Faults) (now : ℕ) (tasks : List DockerTask) (nodes : List DockerNode)
    (table : Table)
    → is_quiet (reconcile_nodes texts f now tasks nodes table).1 ≡ true
unfolding reconcile_nodes
reconcile_nodes-is_quiet texts f now tasks [] table = refl
reconcile_nodes-is_quiet texts f now tasks (n ∷ nodes) table =
    let done = reconcile_node texts f now tasks n table in
    append-is_quiet done.1 (reconcile_nodes texts f now tasks nodes done.0).1
      (reconcile_node-is_quiet texts f now tasks n table)
      (reconcile_nodes-is_quiet texts f now tasks nodes done.0)

reconcile_with-is_quiet :
    (texts : Texts) (f : Faults) (now : ℕ) (tasks : Option (List DockerTask))
    (nodes : Option (List DockerNode)) (table : Table)
    → is_quiet (reconcile_with texts f now tasks nodes table).1 ≡ true
unfolding check_quorum
reconcile_with-is_quiet texts f now tasks none table = refl
reconcile_with-is_quiet texts f now tasks (some nodes) table =
    append-is_quiet (reconcile_nodes texts f now (tasks_or_none tasks) nodes table).1 _
      (reconcile_nodes-is_quiet texts f now (tasks_or_none tasks) nodes table) (ground arith)

reconcile_all-is_quiet :
    (texts : Texts) (passes : List Pass) (table : Table)
    → is_quiet (reconcile_all texts passes table).1 ≡ true
unfolding reconcile_all reconcile
reconcile_all-is_quiet texts [] table = refl
reconcile_all-is_quiet texts (p ∷ passes) table =
    let done = reconcile texts p table in
    append-is_quiet done.1 (reconcile_all texts passes done.0).1
      (reconcile_with-is_quiet texts p.faults p.now p.tasks p.nodes table)
      (reconcile_all-is_quiet texts passes done.0)

-- The events of the node service, among those of everything else.
abbrev pub is_cluster : Event → Bool
is_cluster evt =
    evt.source == "swarm" && (evt.entity_type == "swarm_cluster" || evt.entity_type == "swarm_node")

key-is_cluster :
    (evts : List Event)
    → all (λ evt. is_cluster evt || not (event_key evt == quorum_key)) evts ≡ true
key-is_cluster [] = refl
key-is_cluster (evt ∷ evts) = ground (arith, key-is_cluster evts)

-- An alert on the quorum of a swarm is never recovered: once it is active it stays active, whatever
-- Docker says of the nodes in any later passes and whatever fails, if the engine receives, of nodes
-- and the cluster, exactly the events that the passes make.
pub reconcile_all-stands :
    (texts : Texts) (passes : List Pass) (table : Table) (evts : List (Deps × Event)) (e : Engine)
    → IsKeyed e
    → select is_cluster (events_of evts) ≡ (reconcile_all texts passes table).1
    → stands e quorum_key ≡ true
    → stands (run evts e).0 quorum_key ≡ true
reconcile_all-stands texts passes table evts e h q s =
    run-stands evts e quorum_key h
      (all-recovers-select is_cluster quorum_key (events_of evts) (key-is_cluster (events_of evts))
        (ap is_quiet q ∙ reconcile_all-is_quiet texts passes table))
      s
