-- ===== src/Tests/DryPass.antt =====
-- An example of a dry run.
use cert_rotator.Base.{
  ◌+◌, true, List, [], ◌∷◌, none, some, ◌==◌, ◌≡◌, refl, false, string_eq, string_dec, path_eq,
  arith,
}
use cert_rotator.Base.Int.{ℤ}
use cert_rotator.Api.{FilePath, CertRotationConfigSpec, NodePhase}
use cert_rotator.Host.{Env, World, ok, found, is_prefix}
use cert_rotator.Detector.{detect, needs_renewal}
use cert_rotator.Controller.{reconcile, detector_of}
use cert_rotator.Controller.DryRun.{Recorded, reconcile-Recorded}
use cert_rotator.Controller.Phase.{phase_of}
use cert_rotator.Controller.Status.{set_node_phase}
use cert_rotator.Tests.FreshPass.{json, env_due, start, seen, value_of}
use cert_rotator.Tests.Outside.{spec, status}

abbrev dry : CertRotationConfigSpec
dry = record spec { dry_run = true }

abbrev env_dry : Env
env_dry = record env_due { get = λ _. found dry status }

abbrev begun : World
begun =
    (set_node_phase env_dry "n1" NodePhase.detecting ""
      (record start { calls = start.calls + 1; status = status })).1

abbrev after_detection : World
after_detection = (detect env_dry (detector_of dry) "n1" begun).1

abbrev ended : World
ended = (reconcile env_dry json "n1" start).1

abbrev next : ℤ
next = value_of (reconcile env_dry json "n1" start).0

run_lem :
    ((reconcile env_dry json "n1" start ≡ (ok next, ended))
      × (phase_of "n1" ended.status ≡ NodePhase.idle))
    × (detect env_dry (detector_of dry) "n1" begun ≡ (ok seen, after_detection))
unfolding cert_rotator.Host.pure cert_rotator.Host.fail cert_rotator.Host.crash
    cert_rotator.Host.gets cert_rotator.Host.wrap cert_rotator.Host.attempt cert_rotator.Host.lift
    cert_rotator.Host.◌>>=◌ cert_rotator.Host.log_error cert_rotator.Host.next_call
    cert_rotator.Host.emit cert_rotator.Host.modify_status cert_rotator.Host.now
    cert_rotator.Host.range_map cert_rotator.Host.fallible cert_rotator.Host.look_up
    cert_rotator.Host.stat cert_rotator.Host.read_file cert_rotator.Host.make_dirs
    cert_rotator.Host.mkdir_all cert_rotator.Host.put_file cert_rotator.Host.write_with
    cert_rotator.Host.write_file cert_rotator.Host.open_truncated cert_rotator.Host.io_copy
    cert_rotator.Host.sleep cert_rotator.Host.dial cert_rotator.Host.http_get
    cert_rotator.Host.send_mail cert_rotator.Host.http_post cert_rotator.Host.patch_status
    cert_rotator.Host.get_config cert_rotator.Detector.cert_status_eq cert_rotator.Detector.classify
    cert_rotator.Detector.sub_time cert_rotator.Detector.residual_days_of
    cert_rotator.Detector.cert_info cert_rotator.Detector.parse_block
    cert_rotator.Detector.parse_pem_cert cert_rotator.Detector.parse_cert
    cert_rotator.Detector.lookup_field cert_rotator.Detector.client_cert_of
    cert_rotator.Detector.scan_user cert_rotator.Detector.scan_users
    cert_rotator.Detector.extract_client_cert_data cert_rotator.Detector.decode_cert
    cert_rotator.Detector.parse_kubeconfig_bytes cert_rotator.Detector.parse_kubeconfig_read
    cert_rotator.Detector.parse_kubeconfig_cert cert_rotator.Detector.classified
    cert_rotator.Detector.detect_pki cert_rotator.Detector.append_found
    cert_rotator.Detector.detect_kubeconfigs cert_rotator.Detector.detect
    cert_rotator.Detector.needs_renewal cert_rotator.Detector.is_urgent
    cert_rotator.Controller.is_critical cert_rotator.Controller.on_rollback
    cert_rotator.Controller.on_renewal cert_rotator.Controller.renew cert_rotator.Controller.go_idle
    cert_rotator.Controller.on_detected cert_rotator.Controller.check_certs
    cert_rotator.Controller.on_found cert_rotator.Controller.on_fetched
    cert_rotator.Controller.reconcile cert_rotator.Controller.Status.node_status
    cert_rotator.Controller.Status.ensure_nodes cert_rotator.Controller.Status.update_node
    cert_rotator.Controller.Status.patched_by cert_rotator.Controller.Status.set_node_phase
    cert_rotator.Controller.Status.set_node_backup_path
    cert_rotator.Controller.Status.set_node_renewed
    cert_rotator.Controller.Status.update_node_cert_status
    cert_rotator.Controller.Status.to_cert_statuses cert_rotator.Controller.Conditions.note_certs
    cert_rotator.Controller.Conditions.note_nodes cert_rotator.Controller.Conditions.flags_of
    cert_rotator.Controller.Conditions.cluster_phase
    cert_rotator.Controller.Conditions.with_conditions
    cert_rotator.Controller.Conditions.update_cluster_conditions
    cert_rotator.Controller.Requeue.fnv_write cert_rotator.Controller.Requeue.sum32
    cert_rotator.Controller.Requeue.requeue_interval cert_rotator.Controller.Requeue.jitter
    cert_rotator.Controller.Requeue.requeue_with_jitter cert_rotator.Base.string_dec
    cert_rotator.Base.string_eq cert_rotator.Base.path_eq cert_rotator.Api.node_phase_eq
    native.Mathlib.Decide.ℕ_discrete cert_rotator.Base.Int.◌+ℤ◌ cert_rotator.Base.Int.◌-ℤ◌
    cert_rotator.Backup.copy_file cert_rotator.Backup.skip_missing cert_rotator.Backup.copy_optional
    cert_rotator.Backup.copy_pki cert_rotator.Backup.copy_kubeconfigs
    cert_rotator.Backup.copy_to_backup cert_rotator.Backup.create cert_rotator.Backup.restore
    cert_rotator.Controller.Renewal.write_renewed cert_rotator.Controller.Renewal.renew_cert
    cert_rotator.Controller.Renewal.renew_each cert_rotator.Controller.Renewal.renew_and_restart
    cert_rotator.Controller.Renewal.run_renewal cert_rotator.Controller.Renewal.roll_back
    cert_rotator.Controller.Renewal.run_rollback cert_rotator.Controller.Notify.send_renewal_success
    cert_rotator.Notifier.notify cert_rotator.Notifier.via
    cert_rotator.Controller.Notify.build_notifier cert_rotator.Notifier.send_smtp
    cert_rotator.Notifier.send_slack cert_rotator.Notifier.note_error
run_lem = ((refl, refl), refl)

seen_due : needs_renewal seen ≡ true
unfolding needs_renewal cert_rotator.Detector.cert_status_eq
seen_due = refl

reconcile-Recorded_example :
    ((q : FilePath) → is_prefix ("backups" ∷ []) q ≡ false → ended.files q ≡ start.files q)
    × Recorded env_dry "n1" ended.status
reconcile-Recorded_example =
    reconcile-Recorded env_dry json "n1" dry status seen start (λ _ _ _. refl) refl refl run_lem.1
      seen_due run_lem.0.0 run_lem.0.1
