-- ===== src/Tests/Undone.antt =====
-- An example of a renewal that is undone.
use cert_rotator.Base.{
  String, string_eq, string_dec, path_eq, [], ◌∷◌, ◌++◌, All, some, ◌==◌, ◌≡◌, ◌≢◌, false, refl, ap,
  arith,
}
use cert_rotator.Base.Int.{pos}
use cert_rotator.Api.{FilePath}
use cert_rotator.Host.{File, World, ok}
use cert_rotator.Backup.{Backup, create, restore, kubeconfig_files}
use cert_rotator.Controller.Renewal.{backup_manager}
use cert_rotator.Controller.Renewal.Undone.{KeepsBackups, restore-run_renewal}
use cert_rotator.Tests.Outside.{env, spec}
use cert_rotator.Tests.Passes.{start}
use cert_rotator.Tests.Renewals.{detected, renewed}

abbrev backup : Backup
backup = record { node = "n1"; backup_path = "backups" ∷ "n1" ∷ "now" ∷ []; created_at = pos 50 }

abbrev backed_up : World
backed_up = (create env (backup_manager spec) "n1" start).1

created : create env (backup_manager spec) "n1" start ≡ (ok backup, backed_up)
unfolding cert_rotator.Host.pure cert_rotator.Host.fail cert_rotator.Host.crash
    cert_rotator.Host.gets cert_rotator.Host.wrap cert_rotator.Host.attempt cert_rotator.Host.lift
    cert_rotator.Host.◌>>=◌ cert_rotator.Host.log_error cert_rotator.Host.next_call
    cert_rotator.Host.emit cert_rotator.Host.modify_status cert_rotator.Host.now
    cert_rotator.Host.range_map cert_rotator.Host.fallible cert_rotator.Host.look_up
    cert_rotator.Host.stat cert_rotator.Host.read_file cert_rotator.Host.make_dirs
    cert_rotator.Host.mkdir_all cert_rotator.Host.put_file cert_rotator.Host.write_with
    cert_rotator.Host.write_file cert_rotator.Host.open_truncated cert_rotator.Host.io_copy
    cert_rotator.Host.sleep cert_rotator.Host.dial cert_rotator.Host.http_get
    cert_rotator.Host.send_mail cert_rotator.Host.http_post cert_rotator.Host.patch_status
    cert_rotator.Host.get_config cert_rotator.Backup.copy_file cert_rotator.Backup.skip_missing
    cert_rotator.Backup.copy_optional cert_rotator.Backup.copy_pki
    cert_rotator.Backup.copy_kubeconfigs cert_rotator.Backup.copy_to_backup
    cert_rotator.Backup.create cert_rotator.Backup.restore cert_rotator.Base.string_dec
    cert_rotator.Base.string_eq cert_rotator.Base.path_eq native.Mathlib.Decide.ℕ_discrete
created = refl

abbrev undone : World
undone = (restore env (backup_manager spec) backup.backup_path renewed).1

restored : restore env (backup_manager spec) backup.backup_path renewed ≡ (ok tt, undone)
unfolding cert_rotator.Host.pure cert_rotator.Host.fail cert_rotator.Host.crash
    cert_rotator.Host.gets cert_rotator.Host.wrap cert_rotator.Host.attempt cert_rotator.Host.lift
    cert_rotator.Host.◌>>=◌ cert_rotator.Host.log_error cert_rotator.Host.next_call
    cert_rotator.Host.emit cert_rotator.Host.modify_status cert_rotator.Host.now
    cert_rotator.Host.range_map cert_rotator.Host.fallible cert_rotator.Host.look_up
    cert_rotator.Host.stat cert_rotator.Host.read_file cert_rotator.Host.make_dirs
    cert_rotator.Host.mkdir_all cert_rotator.Host.put_file cert_rotator.Host.write_with
    cert_rotator.Host.write_file cert_rotator.Host.open_truncated cert_rotator.Host.io_copy
    cert_rotator.Host.sleep cert_rotator.Host.dial cert_rotator.Host.http_get
    cert_rotator.Host.send_mail cert_rotator.Host.http_post cert_rotator.Host.patch_status
    cert_rotator.Host.get_config cert_rotator.Backup.copy_file cert_rotator.Backup.skip_missing
    cert_rotator.Backup.copy_optional cert_rotator.Backup.copy_pki
    cert_rotator.Backup.copy_kubeconfigs cert_rotator.Backup.copy_to_backup
    cert_rotator.Backup.create cert_rotator.Backup.restore cert_rotator.Detector.cert_status_eq
    cert_rotator.Detector.lookup_field cert_rotator.HealthCheck.addr_of
    cert_rotator.HealthCheck.url_of cert_rotator.HealthCheck.tcp_probe
    cert_rotator.HealthCheck.expect_ok cert_rotator.HealthCheck.http_probe
    cert_rotator.HealthCheck.check cert_rotator.HealthCheck.check_each
    cert_rotator.HealthCheck.check_all cert_rotator.HealthCheck.after_round
    cert_rotator.HealthCheck.retry cert_rotator.HealthCheck.check_all_with_retry
    cert_rotator.HealthCheck.tcp_each cert_rotator.HealthCheck.tcp_only_check
    cert_rotator.HealthCheck.note_check cert_rotator.HealthCheck.detail_each
    cert_rotator.HealthCheck.check_all_detailed cert_rotator.PodRestart.set_field
    cert_rotator.PodRestart.submap cert_rotator.PodRestart.annotate
    cert_rotator.PodRestart.annotated cert_rotator.PodRestart.inject_restart_annotation
    cert_rotator.PodRestart.find_manifest cert_rotator.PodRestart.rewrite_manifest
    cert_rotator.PodRestart.restart cert_rotator.PodRestart.restart_each
    cert_rotator.PodRestart.restart_all cert_rotator.Writer.write_below
    cert_rotator.Writer.write_cert cert_rotator.Writer.write_key
    cert_rotator.Writer.write_cert_key_pair cert_rotator.Writer.write_pair
    cert_rotator.Writer.write_each cert_rotator.Writer.write_all_certs
    cert_rotator.Writer.expect_content cert_rotator.Writer.verify_file
    cert_rotator.Writer.verify_each cert_rotator.Writer.verify cert_rotator.Generator.generate_key
    cert_rotator.Generator.filter_each cert_rotator.Generator.filter_extensions
    cert_rotator.Generator.build_template cert_rotator.Generator.read_pem_file
    cert_rotator.Generator.load_existing_cert cert_rotator.Generator.load_ca_cert
    cert_rotator.Generator.encode_key_pem cert_rotator.Generator.encode_cert_pem
    cert_rotator.Generator.rsa_key cert_rotator.Generator.parse_ca_key
    cert_rotator.Generator.load_ca_key cert_rotator.Signer.sign
    cert_rotator.Signer.sign_with_self_key cert_rotator.Signer.ca_for_cert
    cert_rotator.Controller.Status.node_status cert_rotator.Controller.Status.ensure_nodes
    cert_rotator.Controller.Status.update_node cert_rotator.Controller.Status.patched_by
    cert_rotator.Controller.Status.set_node_phase
    cert_rotator.Controller.Status.set_node_backup_path
    cert_rotator.Controller.Status.set_node_renewed
    cert_rotator.Controller.Status.update_node_cert_status
    cert_rotator.Controller.Status.to_cert_statuses cert_rotator.Controller.Renewal.write_renewed
    cert_rotator.Controller.Renewal.renew_cert cert_rotator.Controller.Renewal.renew_each
    cert_rotator.Controller.Renewal.renew_and_restart cert_rotator.Controller.Renewal.run_renewal
    cert_rotator.Controller.Renewal.roll_back cert_rotator.Controller.Renewal.run_rollback
    cert_rotator.Base.string_dec cert_rotator.Base.string_eq cert_rotator.Base.path_eq
    native.Mathlib.Decide.ℕ_discrete
restored = refl

spec-KeepsBackups : KeepsBackups spec
unfolding string_eq string_dec
spec-KeepsBackups = record { no_cert = λ _. refl; no_manifest = λ _. refl }

abbrev first : FilePath → String
first [] = ""
first (c ∷ p) = c

conf_apart : (p q : FilePath) → "conf" ∷ p ≢ "pki" ∷ q
conf_apart p q = λ e. names_apart (ap first e)
  where
    names_apart : ◌≢◌ {A = String} "conf" "pki"
    names_apart = cc

restore-run_renewal_example :
    (g : File) × (undone.files ("pki" ∷ "apiserver.crt" ∷ []) ≡ some g) × (g.content ≡ 1 ∷ 2 ∷ [])
unfolding path_eq string_eq string_dec
restore-run_renewal_example =
    restore-run_renewal env "n1" spec detected ("apiserver.crt" ∷ []) start spec-KeepsBackups
      (conf_apart _ _, (conf_apart _ _, (conf_apart _ _, (conf_apart _ _, tt)))) refl refl created
      restored
