-- ===== src/Swarm/Nodes/Transitions.antt =====
-- The alerts of one node.
use mathlib.Core.Path.{subst}
use pulseboard.Common.{
  ℕ, String, string_eq, Bool, true, false, ◌&&◌, ◌||◌, Option, none, some, List, [], ◌∷◌, ◌++◌,
  ◌==◌, ◌≡◌, refl, sym, ◌∙◌, ap, arith, all, ==→≡, Bool-cases, inl, inr, eq_iff,
}
use pulseboard.Common.Assoc.{lookup, lookup-insert_self}
use pulseboard.Alert.Model.{Event, ActiveAlertKey, key_eq}
use pulseboard.Alert.Engine.Standing.{opened, opened-append}
use pulseboard.Swarm.Nodes.{
  SwarmNode, DockerNode, DockerTask, Table, Faults, Texts, merged, upsert_node, is_gone,
  detect_transitions, new_node, seen_since, reconcile_node,
}

abbrev pub node_key : String → ActiveAlertKey
node_key alert_type = record {
  source = "swarm";
  alert_type = alert_type;
  entity_type = "swarm_node";
  entity_id = "";
}

-- The states of a node that the alerts know.
abbrev pub is_known : String → Bool
is_known status = status == "ready" || is_gone status

-- A node that is gone is not ready.
is_gone-ready : (status : String) → is_gone status ≡ true → (status == "ready") ≡ false
is_gone-ready status h = elim (Bool-cases (status == "ready")) [
  | inl t ↦ absurd (ground (arith, h, ap is_gone (==→≡ status "ready" t)))
  | inr f ↦ f
]

detect_transitions-opened :
    (texts : Texts) (now : ℕ) (old current : SwarmNode)
    → is_known old.status ≡ true
    → is_known current.status ≡ true
    → (opened (node_key "node_down") (is_gone old.status) (detect_transitions texts now old current)
        ≡ is_gone current.status)
      × (opened
            (node_key "node_drain")
            (old.availability == "drain")
            (detect_transitions texts now old current)
          ≡ (current.availability == "drain"))
unfolding detect_transitions
detect_transitions-opened texts now old current h k = (
  ground (
    arith,
    h,
    k,
    is_gone-ready old.status,
    is_gone-ready current.status,
    eq_iff old.status current.status,
  ),
  ground (arith, eq_iff old.availability current.availability),
)

-- What a run of passes finds of the node, each time with the time and the tasks.
abbrev pub Finding : Type 0
Finding = ℕ × List DockerTask × DockerNode

unfoldable pub observe : Texts → Faults → List Finding → Table → Table × List Event
observe texts f [] table = (table, [])
observe texts f ((now, tasks, n) ∷ findings) table =
    let done = reconcile_node texts f now tasks n table in
    let rest = observe texts f findings done.0 in (rest.0, done.1 ++ rest.1)

abbrev pub last_gone : Bool → List Finding → Bool
last_gone b [] = b
last_gone b (finding ∷ findings) = last_gone (is_gone finding.2.state) findings

abbrev pub last_drained : Bool → List Finding → Bool
last_drained b [] = b
last_drained b (finding ∷ findings) = last_drained (finding.2.availability == "drain") findings

-- The node as it is stored, with its status and its availability.
abbrev Stored : String → Bool → Bool → Table → Type 0
Stored id gone drained table =
    (row : SwarmNode) × (lookup id table ≡ some row)
    × (is_known row.status ≡ true)
    × (is_gone row.status ≡ gone)
    × ((row.availability == "drain") ≡ drained)

merged-status :
    (node : SwarmNode) (o : Option SwarmNode)
    → ((merged node o).status ≡ node.status) × ((merged node o).availability ≡ node.availability)
merged-status node none = (refl, refl)
merged-status node (some row) = (refl, refl)

upsert_node-Stored :
    (node : SwarmNode) (table : Table)
    → is_known node.status ≡ true
    → Stored node.node_id
        (is_gone node.status)
        (node.availability == "drain")
        (upsert_node node table)
unfolding upsert_node
upsert_node-Stored node table k =
    let row = merged node (lookup node.node_id table) in
    let (status, availability) = merged-status node (lookup node.node_id table) in
    (
      row,
      lookup-insert_self node.node_id row table,
      ap is_known status ∙ k,
      ap is_gone status,
      ap (λ a. a == "drain") availability,
    )

reconcile_node-Stored :
    (texts : Texts) (f : Faults) (now : ℕ) (tasks : List DockerTask) (n : DockerNode)
    (table : Table) (gone drained : Bool)
    → f.get_node n.id ≡ false
    → f.upsert_node n.id ≡ false
    → is_known n.state ≡ true
    → Stored n.id gone drained table
    → Stored n.id
        (is_gone n.state)
        (n.availability == "drain")
        (reconcile_node texts f now tasks n table).0
      × (opened (node_key "node_down") gone (reconcile_node texts f now tasks n table).1
          ≡ is_gone n.state)
      × (opened (node_key "node_drain") drained (reconcile_node texts f now tasks n table).1
          ≡ (n.availability == "drain"))
unfolding reconcile_node
reconcile_node-Stored texts f now tasks n table gone drained a b k (row, at, known, g, d) =
    let node = seen_since (new_node now tasks n) (some row) in
    let (down, drain) = detect_transitions-opened texts now row node known k in
    rw (a, b, at)
      (
        upsert_node-Stored node table k,
        subst
            (λ b.
              opened (node_key "node_down") b (detect_transitions texts now row node)
              ≡ is_gone n.state)
            g down,
        subst
            (λ b.
              opened (node_key "node_drain") b (detect_transitions texts now row node)
              ≡ (n.availability == "drain"))
            d drain,
      )

observe-Stored :
    (texts : Texts) (f : Faults) (id : String) (findings : List Finding) (table : Table)
    (gone drained : Bool)
    → f.get_node id ≡ false
    → f.upsert_node id ≡ false
    → all (λ finding. finding.2.id == id && is_known finding.2.state) findings ≡ true
    → Stored id gone drained table
    → (opened (node_key "node_down") gone (observe texts f findings table).1
        ≡ last_gone gone findings)
      × (opened (node_key "node_drain") drained (observe texts f findings table).1
          ≡ last_drained drained findings)
unfolding observe
observe-Stored texts f id [] table gone drained a b h s = (refl, refl)
observe-Stored texts f id ((now, tasks, n) ∷ findings) table gone drained a b h s =
    let same : n.id ≡ id = ==→≡ n.id id (ground (arith, h)) in
    let done = reconcile_node texts f now tasks n table in
    let (after, down, drain) =
      reconcile_node-Stored texts f now tasks n table gone drained (ap f.get_node same ∙ a)
        (ap f.upsert_node same ∙ b) (ground (arith, h))
        (subst (λ i. Stored i gone drained table) (sym same) s) in
    let (downs, drains) =
      observe-Stored texts f id findings done.0 (is_gone n.state) (n.availability == "drain") a b
        (ground (arith, h))
        (subst (λ i. Stored i (is_gone n.state) (n.availability == "drain") done.0) same after) in
    let rest = (observe texts f findings done.0).1 in
    (
      opened-append (node_key "node_down") gone done.1 rest
          ∙ ap (λ b. opened (node_key "node_down") b rest) down
          ∙ downs,
      opened-append (node_key "node_drain") drained done.1 rest
          ∙ ap (λ b. opened (node_key "node_drain") b rest) drain
          ∙ drains,
    )

-- The alerts of a node follow it: however often one node is found, with Docker's states ready, down and
-- disconnected in any order and any availabilities, and with no failure of the store on it, the last
-- event on its being down, or its stored status where there is none, says that it is gone exactly if
-- it is down or disconnected now, and the last event on its drain, or the stored availability, says
-- that it drains exactly if it does now.
pub observe-last :
    (texts : Texts) (f : Faults) (id : String) (findings : List Finding) (table : Table)
    (row : SwarmNode)
    → lookup id table ≡ some row
    → is_known row.status ≡ true
    → f.get_node id ≡ false
    → f.upsert_node id ≡ false
    → all (λ finding. finding.2.id == id && is_known finding.2.state) findings ≡ true
    → (opened (node_key "node_down") (is_gone row.status) (observe texts f findings table).1
        ≡ last_gone (is_gone row.status) findings)
      × (opened
            (node_key "node_drain")
            (row.availability == "drain")
            (observe texts f findings table).1
          ≡ last_drained (row.availability == "drain") findings)
observe-last texts f id findings table row at k a b h =
    observe-Stored texts f id findings table (is_gone row.status) (row.availability == "drain") a b
      h (row, at, k, refl, refl)
