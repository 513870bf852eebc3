-- ===== src/Tests/Restorations.antt =====
-- An example of a rollback that brings a file back.
use cert_rotator.Base.{
  String, true, false, [], ◌∷◌, ◌++◌, none, some, ◌≡◌, ◌≢◌, refl, ap, string_eq, string_dec,
  path_eq,
}
use cert_rotator.Base.Int.{pos}
use cert_rotator.Api.{FilePath}
use cert_rotator.Host.{World, Result, ok, err, panic, message}
use cert_rotator.Backup.Copy.{Holds}
use cert_rotator.Rollback
use cert_rotator.Rollback.{RollbackResult, rollback_node, failed_result}
use cert_rotator.Rollback.Restored.{rollback_node-restores}
use cert_rotator.State.{State, NodeState, new}
use cert_rotator.Tests.Outside.{env, with_files}

abbrev manager : Rollback.Manager
manager = record {
  backup_mgr = record {
    backup_dir = "backups" ∷ [];
    pki_dir = "pki" ∷ [];
    kubeconfig_dir = "conf" ∷ [];
  };
  restart_mgr = record { manifest_dir = "manifests" ∷ []; dry_run = false };
  state_file = "state.json" ∷ [];
  dry_run = false;
}

abbrev node : NodeState
node = record {
  node = "n1";
  backup_path = "backups" ∷ "n1" ∷ "now" ∷ [];
  renewed_at = none;
  rolled_back_at = none;
  renewal_failed = false;
  rollback_failed = false;
}

abbrev state : State
state = record new { nodes = some (("n1", node) ∷ []) }

-- The certificate directory has lost its files.
abbrev start : World
start = with_files (
    ("backups" ∷ "n1" ∷ "now" ∷ "pki" ∷ "ca.crt" ∷ [])
    ∷ ("manifests" ∷ "etcd.yaml" ∷ [])
    ∷ ("manifests" ∷ "kube-apiserver.yaml" ∷ [])
    ∷ ("manifests" ∷ "kube-controller-manager.yaml" ∷ [])
    ∷ ("manifests" ∷ "kube-scheduler.yaml" ∷ [])
    ∷ [])

abbrev result_of : Result RollbackResult → RollbackResult
result_of (ok r) = r
result_of (err e) = failed_result "" e
result_of (panic s) = failed_result "" (message s)

abbrev result : RollbackResult
result = result_of (rollback_node env manager "n1" (some state) (pos 5) start).0

abbrev after : World
after = (rollback_node env manager "n1" (some state) (pos 5) start).1

rolled_back : rollback_node env manager "n1" (some state) (pos 5) start ≡ (ok result, after)
unfolding cert_rotator.Host.◌>>=◌ rollback_node Rollback.rollback_known string_eq
    cert_rotator.Host.pure cert_rotator.Host.now cert_rotator.Host.next_call
    cert_rotator.Host.attempt cert_rotator.Host.lift cert_rotator.Backup.copy_file
    cert_rotator.Backup.copy_kubeconfigs cert_rotator.Backup.copy_optional
    cert_rotator.Backup.copy_pki cert_rotator.Backup.restore cert_rotator.Backup.skip_missing
    cert_rotator.Base.Decimal.itoa path_eq string_dec cert_rotator.Detector.lookup_field
    cert_rotator.HealthCheck.addr_of cert_rotator.HealthCheck.after_round
    cert_rotator.HealthCheck.check cert_rotator.HealthCheck.check_all
    cert_rotator.HealthCheck.check_all_with_retry cert_rotator.HealthCheck.check_each
    cert_rotator.HealthCheck.expect_ok cert_rotator.HealthCheck.http_probe
    cert_rotator.HealthCheck.retry cert_rotator.HealthCheck.tcp_probe
    cert_rotator.HealthCheck.url_of cert_rotator.Host.fallible cert_rotator.Host.io_copy
    cert_rotator.Host.look_up cert_rotator.Host.make_dirs cert_rotator.Host.mkdir_all
    cert_rotator.Host.open_truncated cert_rotator.Host.put_file cert_rotator.Host.read_file
    cert_rotator.Host.stat cert_rotator.Host.write_file cert_rotator.Host.write_with
    cert_rotator.Host.crash cert_rotator.Host.emit cert_rotator.Host.fail cert_rotator.Host.wrap
    cert_rotator.Host.dial cert_rotator.Host.http_get cert_rotator.Host.sleep
    cert_rotator.PodRestart.annotate cert_rotator.PodRestart.annotated
    cert_rotator.PodRestart.find_manifest cert_rotator.PodRestart.inject_restart_annotation
    cert_rotator.PodRestart.restart cert_rotator.PodRestart.restart_all
    cert_rotator.PodRestart.restart_each cert_rotator.PodRestart.rewrite_manifest
    cert_rotator.PodRestart.set_field cert_rotator.PodRestart.submap Rollback.failed_result
    Rollback.no_backup Rollback.restore_node Rollback.restored_result Rollback.rollback_to
    native.Mathlib.Decide.ℕ_discrete
rolled_back = refl

succeeded : result.success ≡ true
unfolding cert_rotator.Host.◌>>=◌ rollback_node Rollback.rollback_known string_eq
    cert_rotator.Host.pure cert_rotator.Host.now cert_rotator.Host.next_call
    cert_rotator.Host.attempt cert_rotator.Host.lift cert_rotator.Backup.copy_file
    cert_rotator.Backup.copy_kubeconfigs cert_rotator.Backup.copy_optional
    cert_rotator.Backup.copy_pki cert_rotator.Backup.restore cert_rotator.Backup.skip_missing
    cert_rotator.Base.Decimal.itoa path_eq string_dec cert_rotator.Detector.lookup_field
    cert_rotator.HealthCheck.addr_of cert_rotator.HealthCheck.after_round
    cert_rotator.HealthCheck.check cert_rotator.HealthCheck.check_all
    cert_rotator.HealthCheck.check_all_with_retry cert_rotator.HealthCheck.check_each
    cert_rotator.HealthCheck.expect_ok cert_rotator.HealthCheck.http_probe
    cert_rotator.HealthCheck.retry cert_rotator.HealthCheck.tcp_probe
    cert_rotator.HealthCheck.url_of cert_rotator.Host.fallible cert_rotator.Host.io_copy
    cert_rotator.Host.look_up cert_rotator.Host.make_dirs cert_rotator.Host.mkdir_all
    cert_rotator.Host.open_truncated cert_rotator.Host.put_file cert_rotator.Host.read_file
    cert_rotator.Host.stat cert_rotator.Host.write_file cert_rotator.Host.write_with
    cert_rotator.Host.crash cert_rotator.Host.emit cert_rotator.Host.fail cert_rotator.Host.wrap
    cert_rotator.Host.dial cert_rotator.Host.http_get cert_rotator.Host.sleep
    cert_rotator.PodRestart.annotate cert_rotator.PodRestart.annotated
    cert_rotator.PodRestart.find_manifest cert_rotator.PodRestart.inject_restart_annotation
    cert_rotator.PodRestart.restart cert_rotator.PodRestart.restart_all
    cert_rotator.PodRestart.restart_each cert_rotator.PodRestart.rewrite_manifest
    cert_rotator.PodRestart.set_field cert_rotator.PodRestart.submap Rollback.failed_result
    Rollback.no_backup Rollback.restore_node Rollback.restored_result Rollback.rollback_to
    native.Mathlib.Decide.ℕ_discrete
succeeded = refl

abbrev first : FilePath → String
first [] = ""
first (c ∷ p) = c

backups-ne-pki : ◌≢◌ {A = String} "backups" "pki"
backups-ne-pki = cc

conf-ne-pki : ◌≢◌ {A = String} "conf" "pki"
conf-ne-pki = cc

conf_apart : (p q : FilePath) → ("conf" ∷ []) ++ p ≢ ("pki" ∷ []) ++ q
conf_apart p q = λ e. conf-ne-pki (ap first e)

rollback_node-restores_example : Holds (1 ∷ 2 ∷ []) ("pki" ∷ "ca.crt" ∷ []) after
unfolding string_eq string_dec path_eq new
rollback_node-restores_example =
    rollback_node-restores env manager "n1" state node ("ca.crt" ∷ []) (pos 5) start after refl refl
      (λ p q e. backups-ne-pki (ap first e))
      (conf_apart _ _, (conf_apart _ _, (conf_apart _ _, (conf_apart _ _, tt)))) refl refl refl
      rolled_back succeeded
