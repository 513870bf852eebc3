-- ===== src/Controller/Status/Nodes.antt =====
-- What the status helpers do to the entries of the nodes.
use cert_rotator.Base.{String, none, some, ◌==◌, string_eq, if◌then◌else◌, ◌≡◌, arith}
use cert_rotator.Base.Dict.{lookup, lookup-insert, lookup-insert_self}
use cert_rotator.Api.{CertRotationConfigStatus, NodePhase, NodeStatus}
use cert_rotator.Controller.Status.{node_status, fresh_node, ensure_nodes, update_node}

-- The entry that a helper works on: a node's first one is idle.
abbrev pub entry_of : String → CertRotationConfigStatus → NodeStatus
entry_of node s = elim (lookup node s.nodes) [
  | none ↦ fresh_node node NodePhase.idle
  | some ns ↦ ns
]

-- A helper that changes a node's entry by `f` leaves the entry changed by `f`, where a node without
-- one starts from an idle entry of its own, and leaves the other nodes' entries alone.
pub update_node_lem :
    (node other : String) (f : NodeStatus → NodeStatus) (s : CertRotationConfigStatus)
    → lookup other (update_node node f s).nodes
      ≡ (if other == node then some (f (entry_of node s)) else lookup other s.nodes)
unfolding update_node ensure_nodes node_status
update_node_lem node other f s = ground (
  arith,
  lookup-insert node other (f (entry_of node s)) (ensure_nodes node s).nodes,
  lookup-insert node other (fresh_node node NodePhase.idle) s.nodes,
  lookup-insert_self node (fresh_node node NodePhase.idle) s.nodes,
)
