-- ===== src/Controller/Conditions.antt =====
-- The cluster's conditions, computed from the entries of all nodes.
pub mod Summary
use cert_rotator.Base.{
  String, Bool, true, false, not, List, [], ◌∷◌, any, ◌==◌, string_eq, if◌then◌else◌,
}
use cert_rotator.Api.{
  Time, CertStatus, CertRotationConfigStatus, ClusterPhase, NodePhase, NodeStatus, Condition,
  condition_certs_healthy, condition_renewal_in_progress, condition_critical_failure,
}
use cert_rotator.Host.{
  Env, World, Exec, pure, gets, modify_status, now, range_map, patch_status, ◌>>=◌, ◌>>◌,
}

-- The three variables of the loop.
pub record Flags : Type 0 where
  pub healthy : Bool
  pub renewing : Bool
  pub critical : Bool

abbrev pub note_phase : NodePhase → Flags → Flags
note_phase NodePhase.critical fl = record fl { critical = true; healthy = false }
note_phase NodePhase.renewing fl = record fl { renewing = true }
note_phase NodePhase.rolling_back fl = record fl { renewing = true }
note_phase NodePhase.failed fl = record fl { healthy = false }
note_phase NodePhase.unset fl = fl
note_phase NodePhase.idle fl = fl
note_phase NodePhase.detecting fl = fl

unfoldable pub note_certs : List CertStatus → Flags → Flags
note_certs [] fl = fl
note_certs (c ∷ certs) fl =
    note_certs certs (if c.status == "OK" then fl else record fl { healthy = false })

unfoldable pub note_nodes : List (String × NodeStatus) → Flags → Flags
note_nodes [] fl = fl
note_nodes ((_, ns) ∷ nodes) fl = note_nodes nodes (note_certs ns.certs (note_phase ns.phase fl))

unfoldable pub flags_of : List (String × NodeStatus) → Flags
flags_of nodes = note_nodes nodes (record { healthy = true; renewing = false; critical = false })

abbrev condition : String → Bool → String → String → Time → Condition
condition type status reason message t = record {
  type = type;
  status = status;
  reason = reason;
  message = message;
  last_transition_time = t;
}

abbrev pub certs_healthy : Bool → Time → Condition
certs_healthy true =
    condition condition_certs_healthy true "AllCertsValid"
      "All control plane certs are valid across all nodes"
certs_healthy false =
    condition condition_certs_healthy false "CertsExpiring"
      "One or more control plane certs are expiring or expired"

abbrev pub renewal_in_progress : Bool → Time → Condition
renewal_in_progress true =
    condition condition_renewal_in_progress true "RenewalActive"
      "Cert renewal is in progress on one or more nodes"
renewal_in_progress false =
    condition condition_renewal_in_progress false "NoRenewalInProgress"
      "No cert renewal is currently in progress"

abbrev pub critical_failure : Bool → Time → Condition
critical_failure true =
    condition condition_critical_failure true "RollbackFailed"
      "Cert renewal AND rollback failed on one or more nodes — manual intervention required"
critical_failure false =
    condition condition_critical_failure false "NoCriticalFailure" "No critical failures detected"

unfoldable pub cluster_phase : Flags → ClusterPhase
cluster_phase fl =
    if fl.critical
    then ClusterPhase.failed
    else if fl.renewing
    then ClusterPhase.renewing
    else ClusterPhase.idle

-- What the loop's result does to the status.
unfoldable pub with_conditions :
    Env → Flags → Time → CertRotationConfigStatus → CertRotationConfigStatus
with_conditions env fl t s = record s {
  phase = cluster_phase fl;
  conditions =
      env.set_status_condition
        (env.set_status_condition
          (env.set_status_condition s.conditions (certs_healthy fl.healthy t))
          (renewal_in_progress fl.renewing t))
        (critical_failure fl.critical t);
}

unfoldable pub update_cluster_conditions : Env → Exec (Unit {0})
update_cluster_conditions env = do
  before ← gets (λ w. w.status)
  nodes ← range_map env before.nodes
  t ← now env
  modify_status (with_conditions env (flags_of nodes) t)
  patch_status env before
