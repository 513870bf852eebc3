-- ===== src/Tests/Renewals.antt =====
-- Examples of a renewal that succeeds.
use cert_rotator.Base.{
  arith, ◌==◌, ℕ, ◌+◌, String, Bool, true, false, List, [], ◌∷◌, All, Option, none, some, ◌⊎◌, inl,
  inr, ◌≡◌, ◌≢◌, refl, ap, string_eq, string_dec, path_eq,
}
use cert_rotator.Base.Int.{pos}
use cert_rotator.Api.{FilePath}
use cert_rotator.Host.{
  Env, World, Fetched, absent, unreachable, found, Error, message, Result, ok, err, panic,
}
use cert_rotator.HealthCheck.{check_all}
use cert_rotator.Detector.{CertInfo, DetectionResult}
use cert_rotator.Detector
use cert_rotator.Controller.{reconcile, on_renewal, is_critical, one_hour}
use cert_rotator.Controller.Renewal.{run_renewal, timeout_of}
use cert_rotator.Controller.Renewal.Success.{run_renewal-ok, HasPath}
use cert_rotator.Tests.Outside.{env, spec}
use cert_rotator.Base.{◌∙◌, sym, ◌++◌}
use cert_rotator.Writer.{cert_paths}
use cert_rotator.Signer.{ca_for_cert}
use cert_rotator.Controller.Renewal.Issued.{Renewed}
use cert_rotator.Controller.Renewal.Pipeline.{IsSafe, AtItsPath}
use cert_rotator.Controller.Renewal.Complete.{IsApart, run_renewal-Renewed}
use cert_rotator.Tests.Passes.{start}

abbrev pub expired : CertInfo
expired = record {
  name = "apiserver";
  path = "pki" ∷ "apiserver.crt" ∷ [];
  expiry = pos 0;
  residual_days = pos 0;
  status = Detector.CertStatus.expired;
  subject = "kube-apiserver";
  dns_names = [];
  ip_addresses = [];
}

abbrev pub detected : DetectionResult
detected = record { node = "n1"; certs = expired ∷ [] }

abbrev pub renewed : World
renewed = (run_renewal env "n1" spec detected start).1

renewal_ok : run_renewal env "n1" spec detected start ≡ (ok tt, renewed)
unfolding cert_rotator.Host.pure cert_rotator.Host.fail cert_rotator.Host.crash
    cert_rotator.Host.gets cert_rotator.Host.wrap cert_rotator.Host.attempt cert_rotator.Host.lift
    cert_rotator.Host.◌>>=◌ cert_rotator.Host.log_error cert_rotator.Host.next_call
    cert_rotator.Host.emit cert_rotator.Host.modify_status cert_rotator.Host.now
    cert_rotator.Host.range_map cert_rotator.Host.fallible cert_rotator.Host.look_up
    cert_rotator.Host.stat cert_rotator.Host.read_file cert_rotator.Host.make_dirs
    cert_rotator.Host.mkdir_all cert_rotator.Host.put_file cert_rotator.Host.write_with
    cert_rotator.Host.write_file cert_rotator.Host.open_truncated cert_rotator.Host.io_copy
    cert_rotator.Host.sleep cert_rotator.Host.dial cert_rotator.Host.http_get
    cert_rotator.Host.send_mail cert_rotator.Host.http_post cert_rotator.Host.patch_status
    cert_rotator.Host.get_config cert_rotator.Backup.copy_file cert_rotator.Backup.skip_missing
    cert_rotator.Backup.copy_optional cert_rotator.Backup.copy_pki
    cert_rotator.Backup.copy_kubeconfigs cert_rotator.Backup.copy_to_backup
    cert_rotator.Backup.create cert_rotator.Backup.restore cert_rotator.Detector.cert_status_eq
    cert_rotator.Detector.lookup_field cert_rotator.HealthCheck.addr_of
    cert_rotator.HealthCheck.url_of cert_rotator.HealthCheck.tcp_probe
    cert_rotator.HealthCheck.expect_ok cert_rotator.HealthCheck.http_probe
    cert_rotator.HealthCheck.check cert_rotator.HealthCheck.check_each
    cert_rotator.HealthCheck.check_all cert_rotator.HealthCheck.after_round
    cert_rotator.HealthCheck.retry cert_rotator.HealthCheck.check_all_with_retry
    cert_rotator.HealthCheck.tcp_each cert_rotator.HealthCheck.tcp_only_check
    cert_rotator.HealthCheck.note_check cert_rotator.HealthCheck.detail_each
    cert_rotator.HealthCheck.check_all_detailed cert_rotator.PodRestart.set_field
    cert_rotator.PodRestart.submap cert_rotator.PodRestart.annotate
    cert_rotator.PodRestart.annotated cert_rotator.PodRestart.inject_restart_annotation
    cert_rotator.PodRestart.find_manifest cert_rotator.PodRestart.rewrite_manifest
    cert_rotator.PodRestart.restart cert_rotator.PodRestart.restart_each
    cert_rotator.PodRestart.restart_all cert_rotator.Writer.write_below
    cert_rotator.Writer.write_cert cert_rotator.Writer.write_key
    cert_rotator.Writer.write_cert_key_pair cert_rotator.Writer.write_pair
    cert_rotator.Writer.write_each cert_rotator.Writer.write_all_certs
    cert_rotator.Writer.expect_content cert_rotator.Writer.verify_file
    cert_rotator.Writer.verify_each cert_rotator.Writer.verify cert_rotator.Generator.generate_key
    cert_rotator.Generator.filter_each cert_rotator.Generator.filter_extensions
    cert_rotator.Generator.build_template cert_rotator.Generator.read_pem_file
    cert_rotator.Generator.load_existing_cert cert_rotator.Generator.load_ca_cert
    cert_rotator.Generator.encode_key_pem cert_rotator.Generator.encode_cert_pem
    cert_rotator.Generator.rsa_key cert_rotator.Generator.parse_ca_key
    cert_rotator.Generator.load_ca_key cert_rotator.Signer.sign
    cert_rotator.Signer.sign_with_self_key cert_rotator.Signer.ca_for_cert
    cert_rotator.Controller.Status.node_status cert_rotator.Controller.Status.ensure_nodes
    cert_rotator.Controller.Status.update_node cert_rotator.Controller.Status.patched_by
    cert_rotator.Controller.Status.set_node_phase
    cert_rotator.Controller.Status.set_node_backup_path
    cert_rotator.Controller.Status.set_node_renewed
    cert_rotator.Controller.Status.update_node_cert_status
    cert_rotator.Controller.Status.to_cert_statuses cert_rotator.Controller.Renewal.write_renewed
    cert_rotator.Controller.Renewal.renew_cert cert_rotator.Controller.Renewal.renew_each
    cert_rotator.Controller.Renewal.renew_and_restart cert_rotator.Controller.Renewal.run_renewal
    cert_rotator.Controller.Renewal.roll_back cert_rotator.Controller.Renewal.run_rollback
    cert_rotator.Base.string_dec cert_rotator.Base.string_eq cert_rotator.Base.path_eq
    native.Mathlib.Decide.ℕ_discrete
renewal_ok = refl

run_renewal-ok_example :
    All (λ info. info.status ≢ Detector.CertStatus.ok → HasPath info) (expired ∷ [])
    × (w1 : World) × (check_all env
          (record { node = "n1"; timeout = timeout_of spec; dry_run = false })
          w1
        ≡ (ok tt, renewed))
run_renewal-ok_example = run_renewal-ok env "n1" spec detected 0 start renewed refl refl renewal_ok

abbrev first : FilePath → String
first [] = ""
first (c ∷ p) = c

pub differ : (s t : String) → (s == t) ≡ false → s ≢ t
differ s t h = ground (arith, h)

outside_pki : (p q : FilePath) → "pki" ∷ p ≢ "etc" ∷ q
unfolding string_eq string_dec
outside_pki p q = λ e. differ "pki" "etc" refl (ap first e)

pub safe : (p : FilePath) → IsSafe spec ("etc" ∷ p)
unfolding string_eq string_dec
safe p = record {
  no_backup = refl;
  no_target =
      λ name. record { apart = λ {cert = c} {key = k} _. (outside_pki c p, outside_pki k p) };
}

abbrev pub cert_in : Option (FilePath × FilePath) → FilePath
cert_in none = []
cert_in (some (c, k)) = c

at_its_path : AtItsPath spec expired
unfolding string_eq string_dec
at_its_path cert key looked_up = ap (λ o. "pki" ∷ cert_in o) looked_up

pub spec-IsApart : IsApart spec
unfolding string_eq string_dec
spec-IsApart = record { no_backups = λ _. refl; no_manifests = λ _. refl }

is_due : expired.status ≢ Detector.CertStatus.ok
is_due = cc

run_renewal-Renewed_example : Renewed env spec expired start renewed
unfolding ca_for_cert string_eq string_dec
run_renewal-Renewed_example =
    run_renewal-Renewed env "n1" spec detected [] expired [] start renewed refl refl tt tt is_due
      at_its_path (safe _) (safe _) spec-IsApart renewal_ok
