-- ===== src/Controller.antt =====
-- The reconciler of the CertRotationConfig resource
-- (internal/controller/certrotationconfig_controller.go): what the children do is composed here.
pub mod Status
pub mod Conditions
pub mod Renewal
pub mod Requeue
pub mod Notify
pub mod Rollback
pub mod Frame
pub mod Passes
pub mod Due
pub mod Holds
pub mod Phase
pub mod Settled
pub mod History
pub mod Passed
pub mod Fresh
pub mod DryRun
use cert_rotator.Base.{
  String, ◌<>◌, Bool, true, false, Option, none, some, ◌⊎◌, inl, inr, ◌==◌, if◌then◌else◌,
}
use cert_rotator.Base.Int.{ℤ, pos}
use cert_rotator.Base.Dict.{lookup}
use cert_rotator.Api.{
  CertRotationConfigSpec, CertRotationConfigStatus, NodePhase, NodeStatus, node_phase_eq,
}
use cert_rotator.Host.{
  Env, Error, text, Fetched, absent, unreachable, found, Exec, pure, fail, gets, attempt, log_error,
  modify_status, now, get_config, ◌>>=◌, ◌>>◌,
}
use cert_rotator.Detector.{Detector, DetectionResult, detect, needs_renewal}
use cert_rotator.State.{Json}
use Status.{set_node_phase, set_node_renewed, update_node_cert_status, to_cert_statuses}
use Conditions.{update_cluster_conditions}
use Renewal.{run_renewal, run_rollback}
use Requeue.{requeue_with_jitter, requeue_interval}
use Notify.{send_renewal_success, send_rollback_notification, send_critical_alert}

-- The entry of this node is in the phase Critical.
unfoldable pub is_critical : String → CertRotationConfigStatus → Bool
is_critical node status = elim (lookup node status.nodes) [
  | none ↦ false
  | some ns ↦ ns.phase == NodePhase.critical
]

abbrev pub one_hour : ℤ
one_hour = pos 3600000000000

abbrev pub critical_message : Error → Error → String
critical_message renew_err rollback_err =
    "CRITICAL: renewal failed ("
    <> text renew_err
    <> ") AND rollback failed ("
    <> text rollback_err
    <> "). Manual intervention required."

-- The results are durations to requeue after; 0 is the empty `ctrl.Result`.
unfoldable pub on_rollback :
    Env → String → CertRotationConfigSpec → Error → Error ⊎ Unit {0} → Exec ℤ
on_rollback env node spec renew_err (inl rollback_err) = do
  log_error (set_node_phase env node NodePhase.critical (critical_message renew_err rollback_err))
  send_critical_alert env node spec (critical_message renew_err rollback_err)
  log_error (update_cluster_conditions env)
  pure (pos 0)
on_rollback env node spec renew_err (inr _) = do
  log_error (set_node_phase env node NodePhase.failed (text renew_err))
  send_rollback_notification env node spec renew_err
  log_error (update_cluster_conditions env)
  pure (requeue_with_jitter node spec)

unfoldable pub on_renewal : Env → Json → String → CertRotationConfigSpec → Error ⊎ Unit {0} → Exec ℤ
on_renewal env json node spec (inl e) = do
  log_error (set_node_phase env node NodePhase.rolling_back (text e))
  r ← attempt (run_rollback env json node spec e)
  on_rollback env node spec e r
on_renewal env json node spec (inr _) = do
  renewed_at ← now env
  set_node_renewed env node renewed_at
  send_renewal_success env node spec
  log_error (update_cluster_conditions env)
  pure (requeue_with_jitter node spec)

unfoldable pub renew : Env → Json → String → CertRotationConfigSpec → DetectionResult → Exec ℤ
renew env json node spec detected = do
  set_node_phase env node NodePhase.renewing ""
  r ← attempt (run_renewal env node spec detected)
  on_renewal env json node spec r

unfoldable pub go_idle : Env → String → CertRotationConfigSpec → Exec ℤ
go_idle env node spec = do
  set_node_phase env node NodePhase.idle ""
  log_error (update_cluster_conditions env)
  pure (requeue_with_jitter node spec)

unfoldable pub on_detected :
    Env → Json → String → CertRotationConfigSpec → Error ⊎ DetectionResult → Exec ℤ
on_detected env json node spec (inl e) = do
  log_error (set_node_phase env node NodePhase.failed ("cert detection failed: " <> text e))
  pure (requeue_interval spec)
on_detected env json node spec (inr detected) = do
  t ← now env
  update_node_cert_status env node (to_cert_statuses detected) t
  if needs_renewal detected then renew env json node spec detected else go_idle env node spec

abbrev pub detector_of : CertRotationConfigSpec → Detector
detector_of spec = record {
  pki_dir = spec.pki_dir;
  kubeconfig_dir = spec.kubeconfig_dir;
  threshold_days = spec.threshold_days;
}

unfoldable pub check_certs : Env → Json → String → CertRotationConfigSpec → Exec ℤ
check_certs env json node spec = do
  set_node_phase env node NodePhase.detecting ""
  r ← attempt (detect env (detector_of spec) node)
  on_detected env json node spec r

unfoldable pub on_found : Env → Json → String → CertRotationConfigSpec → Exec ℤ
on_found env json node spec = do
  critical ← gets (λ w. is_critical node w.status)
  if critical then pure one_hour else check_certs env json node spec

unfoldable pub on_fetched : Env → Json → String → Fetched → Exec ℤ
on_fetched env json node absent = pure (pos 0)
on_fetched env json node (unreachable e) = fail e
on_fetched env json node (found spec status) = do
  modify_status (λ _. status)
  on_found env json node spec

unfoldable pub reconcile : Env → Json → String → Exec ℤ
reconcile env json node = do fetched ← get_config env; on_fetched env json node fetched
