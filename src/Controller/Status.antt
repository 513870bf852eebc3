-- ===== src/Controller/Status.antt =====
-- The status patch helpers of the reconciler. Each changes the object that `cfg` points to and
-- sends the difference; the change stays in the object if the patch fails.
pub mod Nodes
use cert_rotator.Base.{
  String, Bool, List, [], ◌∷◌, map, Option, none, some, ◌==◌, string_eq, if◌then◌else◌,
}
use cert_rotator.Base.Dict.{lookup, insert}
use cert_rotator.Api.{Time, FilePath, CertStatus, CertRotationConfigStatus, NodePhase, NodeStatus}
use cert_rotator.Host.{Env, World, Exec, pure, gets, modify_status, patch_status, ◌>>=◌, ◌>>◌}
use cert_rotator.Detector
use cert_rotator.Detector.{status_text, CertInfo, DetectionResult}

abbrev pub fresh_node : String → NodePhase → NodeStatus
fresh_node name phase = record {
  node = name;
  phase = phase;
  last_checked_at = none;
  last_renewed_at = none;
  backup_path = [];
  failure_reason = "";
  certs = [];
}

-- `cfg.Status.Nodes[node]`
unfoldable pub node_status : String → CertRotationConfigStatus → NodeStatus
node_status node s = elim (lookup node s.nodes) [
  | none ↦ fresh_node "" NodePhase.unset
  | some ns ↦ ns
]

unfoldable pub ensure_nodes : String → CertRotationConfigStatus → CertRotationConfigStatus
ensure_nodes node s = elim (lookup node s.nodes) [
  | none ↦ record s { nodes = insert node (fresh_node node NodePhase.idle) s.nodes }
  | some _ ↦ s
]

-- `ns := cfg.Status.Nodes[node]; …; cfg.Status.Nodes[node] = ns`, after `ensureNodes`
unfoldable pub update_node :
    String → (NodeStatus → NodeStatus) → CertRotationConfigStatus → CertRotationConfigStatus
update_node node f s =
    let s' = ensure_nodes node s in
    record s' { nodes = insert node (f (node_status node s')) s'.nodes }

-- A change of the object between `client.MergeFrom(cfg.DeepCopy())` and the patch.
unfoldable pub patched_by :
    Env → (CertRotationConfigStatus → CertRotationConfigStatus) → Exec (Unit {0})
patched_by env f = do before ← gets (λ w. w.status); modify_status f; patch_status env before

abbrev pub in_phase : String → NodePhase → String → NodeStatus → NodeStatus
in_phase node phase reason ns = record ns {
  phase = phase;
  node = node;
  failure_reason = if reason == "" then ns.failure_reason else reason;
}

unfoldable pub set_node_phase : Env → String → NodePhase → String → Exec (Unit {0})
set_node_phase env node phase reason =
    patched_by env (update_node node (in_phase node phase reason))

unfoldable pub set_node_backup_path : Env → String → FilePath → Exec (Unit {0})
set_node_backup_path env node path =
    patched_by env (update_node node (λ ns. record ns { backup_path = path }))

abbrev pub renewed : Time → NodeStatus → NodeStatus
renewed t ns = record ns { phase = NodePhase.idle; last_renewed_at = some t; failure_reason = "" }

unfoldable pub set_node_renewed : Env → String → Time → Exec (Unit {0})
set_node_renewed env node t =
    patched_by env (λ s. record (update_node node (renewed t) s) { last_renewed_at = some t })

unfoldable pub update_node_cert_status : Env → String → List CertStatus → Time → Exec (Unit {0})
update_node_cert_status env node certs t = patched_by env λ s.
    record (update_node node (λ ns. record ns { certs = certs; last_checked_at = some t }) s) {
      last_checked_at = some t;
    }

abbrev to_cert_status : CertInfo → CertStatus
to_cert_status c = record {
  name = c.name;
  expiry_time = c.expiry;
  residual_days = c.residual_days;
  status = status_text c.status;
}

unfoldable pub to_cert_statuses : DetectionResult → List CertStatus
to_cert_statuses r = map to_cert_status r.certs
