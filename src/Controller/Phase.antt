-- ===== src/Controller/Phase.antt =====
-- The phase of a node in the status.
use cert_rotator.Base.{String, ◌≡◌, arith, string_eq}
use cert_rotator.Base.Dict.{lookup-insert_self}
use cert_rotator.Api.{Time, CertRotationConfigStatus, NodePhase, NodeStatus}
use cert_rotator.Host.{Env, World}
use cert_rotator.Controller.Status.{node_status, ensure_nodes, update_node}
use cert_rotator.Controller.Conditions.{Flags, with_conditions}
use cert_rotator.Controller.Holds.{StatusHas}

abbrev pub phase_of : String → CertRotationConfigStatus → NodePhase
phase_of node s = (node_status node s).phase

abbrev pub InPhase : String → NodePhase → World → Type 0
InPhase node p = StatusHas λ s. phase_of node s ≡ p

-- What `update_node` makes of the node's entry.
pub node_status-update_node :
    (node : String) (f : NodeStatus → NodeStatus) (s : CertRotationConfigStatus)
    → node_status node (update_node node f s) ≡ f (node_status node (ensure_nodes node s))
unfolding update_node node_status
node_status-update_node node f s =
    let s' = ensure_nodes node s in
    ground (arith, lookup-insert_self node (f (node_status node s')) s'.nodes)

pub update_node-phase :
    (node : String) (f : NodeStatus → NodeStatus) (p : NodePhase) (s : CertRotationConfigStatus)
    → ((ns : NodeStatus) → (f ns).phase ≡ p)
    → phase_of node (update_node node f s) ≡ p
update_node-phase node f p s h =
    rw (phase_of, node_status-update_node node f s) (h (node_status node (ensure_nodes node s)))

-- The conditions of the cluster leave the nodes' entries alone.
pub with_conditions-phase :
    (env : Env) (node : String) (p : NodePhase) (fl : Flags) (t : Time)
    (s : CertRotationConfigStatus)
    → phase_of node s ≡ p
    → phase_of node (with_conditions env fl t s) ≡ p
unfolding with_conditions node_status
with_conditions-phase env node p fl t s h = h
