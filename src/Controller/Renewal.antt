-- ===== src/Controller/Renewal.antt =====
-- The renewal pipeline of a node, and its rollback.
pub mod Success
pub mod Issued
pub mod Pipeline
pub mod Complete
pub mod Undone
use cert_rotator.Base.{
  String, ◌<>◌, false, List, [], ◌∷◌, Option, none, some, ◌==◌, path_eq, if◌then◌else◌,
}
use cert_rotator.Base.Int.{ℤ, scale, int64}
use cert_rotator.Base.Dict.{lookup}
use cert_rotator.Api.{FilePath, CertRotationConfigSpec}
use cert_rotator.Host.{Env, Bytes, Error, message, text, Exec, pure, fail, gets, wrap, ◌>>=◌, ◌>>◌}
use cert_rotator.Backup
use cert_rotator.Detector
use cert_rotator.Detector.{CertInfo, DetectionResult, cert_status_eq}
use cert_rotator.Generator.{load_existing_cert, load_ca_cert, load_ca_key}
use cert_rotator.HealthCheck.{check_all_with_retry}
use cert_rotator.PodRestart
use cert_rotator.Rollback
use cert_rotator.Signer.{ca_for_cert, sign_with_self_key}
use cert_rotator.State.{Json}
use cert_rotator.Writer.{cert_paths, write_cert_key_pair}
use cert_rotator.Controller.Status.{node_status, set_node_backup_path}

abbrev pub backup_manager : CertRotationConfigSpec → Backup.Manager
backup_manager spec = record {
  backup_dir = spec.backup_dir;
  pki_dir = spec.pki_dir;
  kubeconfig_dir = spec.kubeconfig_dir;
}

unfoldable pub write_renewed :
    Env
    → CertRotationConfigSpec
    → String
    → Bytes × Bytes
    → Option (FilePath × FilePath)
    → Exec (Unit {0})
write_renewed env spec name pems none =
    fail (message ("unknown cert name: " <> name <> " — no path mapping found"))
write_renewed env spec name (cert, key) (some (rel_cert, rel_key)) =
    wrap ("writing renewed cert " <> name) (
      write_cert_key_pair env (record { pki_dir = spec.pki_dir; dry_run = false }) rel_cert rel_key
        cert key)

-- The body of the loop for a certificate that is not OK.
unfoldable pub renew_cert : Env → CertRotationConfigSpec → CertInfo → Exec (Unit {0})
renew_cert env spec info = do
  existing ← wrap ("loading existing cert " <> info.name) (load_existing_cert env info.path)
  ca_cert ← wrap ("loading CA cert for " <> info.name) (load_ca_cert env (ca_for_cert info.name).0)
  ca_key ← wrap ("loading CA key for " <> info.name) (load_ca_key env (ca_for_cert info.name).1)
  pems ← wrap ("signing cert " <> info.name) (sign_with_self_key env existing ca_cert ca_key)
  write_renewed env spec info.name pems (lookup info.name cert_paths)

unfoldable pub renew_each : Env → CertRotationConfigSpec → List CertInfo → Exec (Unit {0})
renew_each env spec [] = pure tt
renew_each env spec (info ∷ certs) = do
  (if info.status == Detector.CertStatus.ok then pure tt else renew_cert env spec info)
  renew_each env spec certs

-- `time.Duration(spec.HealthCheckTimeoutSeconds) * time.Second`
abbrev pub timeout_of : CertRotationConfigSpec → ℤ
timeout_of spec = int64 (scale spec.health_check_timeout_seconds 1000000000)

unfoldable pub renew_and_restart :
    Env → String → CertRotationConfigSpec → DetectionResult → Exec (Unit {0})
renew_and_restart env node spec detected = do
  renew_each env spec detected.certs
  wrap "static pod restart failed"
      (PodRestart.restart_all env (record { manifest_dir = spec.manifests_dir; dry_run = false }))
  wrap "health check failed after cert renewal" (
      check_all_with_retry env (record { node = node; timeout = timeout_of spec; dry_run = false })
        spec.health_check_max_attempts 15)

unfoldable pub run_renewal :
    Env → String → CertRotationConfigSpec → DetectionResult → Exec (Unit {0})
run_renewal env node spec detected = do
  b ← wrap "cert backup failed" (Backup.create env (backup_manager spec) node)
  wrap "persisting backup path to status" (set_node_backup_path env node b.backup_path)
  if spec.dry_run then pure tt else renew_and_restart env node spec detected

abbrev pub rollback_manager : CertRotationConfigSpec → Rollback.Manager
rollback_manager spec = record {
  backup_mgr = backup_manager spec;
  restart_mgr = record { manifest_dir = spec.manifests_dir; dry_run = spec.dry_run };
  state_file = [];
  dry_run = spec.dry_run;
}

unfoldable pub roll_back : Env → Json → String → CertRotationConfigSpec → Error → Exec (Unit {0})
roll_back env json node spec original = do
  results ← Rollback.rollback_all env json (rollback_manager spec) [] node none (timeout_of spec)
  if Rollback.is_critical results.0
      then fail
          (message ("rollback failed: " <> Rollback.summary env results.0 node (text original)))
      else wrap "node unhealthy after rollback" (
          check_all_with_retry env
            (record { node = node; timeout = timeout_of spec; dry_run = spec.dry_run })
            spec.health_check_max_attempts 15)

-- The state handed to `RollbackAll` is nil. A node without an entry has no backup path.
unfoldable pub run_rollback : Env → Json → String → CertRotationConfigSpec → Error → Exec (Unit {0})
run_rollback env json node spec original = do
  ns ← gets (λ w. node_status node w.status)
  if ns.backup_path == []
      then fail (message ("no backup path in status for node " <> node <> " — cannot roll back"))
      else roll_back env json node spec original
