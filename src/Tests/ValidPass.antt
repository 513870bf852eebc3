-- ===== src/Tests/ValidPass.antt =====
-- Examples of a pass with nothing to do, and of several passes.
use cert_rotator.Base.{
  ℕ, ◌+◌, String, Bool, true, false, List, [], ◌∷◌, All, Option, none, some, ◌⊎◌, inl, inr, ◌≡◌,
  ◌≢◌, refl, ap, string_eq, string_dec, path_eq,
}
use cert_rotator.Base.Int.{ℤ, pos}
use cert_rotator.Api.{FilePath, CertRotationConfigSpec, CertRotationConfigStatus, NodePhase}
use cert_rotator.Host.{
  Env, World, Fetched, absent, unreachable, found, Error, message, Result, ok, err, panic,
}
use cert_rotator.Detector.{CertInfo, DetectionResult}
use cert_rotator.Detector
use cert_rotator.State.{Json, new}
use cert_rotator.Controller.{reconcile, on_renewal, is_critical, one_hour}
use cert_rotator.Tests.Outside.{env, spec, status, idle_node, with_files}
use cert_rotator.Controller.Settled.{Settled, reconcile-Settled}
use cert_rotator.Controller.Phase.{phase_of}
use cert_rotator.Controller.History.{pass, start, History-critical}

abbrev json : Json
json = record { marshal = λ _. inr (3 ∷ []); unmarshal = λ _. inr new }

-- A pass that finds seven valid certificates.
abbrev valid : World
valid = with_files (
    ("pki" ∷ "apiserver.crt" ∷ [])
    ∷ ("pki" ∷ "apiserver-etcd-client.crt" ∷ [])
    ∷ ("pki" ∷ "apiserver-kubelet-client.crt" ∷ [])
    ∷ ("pki" ∷ "front-proxy-client.crt" ∷ [])
    ∷ ("pki" ∷ "etcd" ∷ "server.crt" ∷ [])
    ∷ ("pki" ∷ "etcd" ∷ "peer.crt" ∷ [])
    ∷ ("pki" ∷ "etcd" ∷ "healthcheck-client.crt" ∷ [])
    ∷ [])

abbrev value_of : Result ℤ → ℤ
value_of (ok d) = d
value_of (err e) = pos 0
value_of (panic s) = pos 0

abbrev due : ℤ
due = value_of (reconcile env json "n1" valid).0

pass_ok : reconcile env json "n1" valid ≡ (ok due, (reconcile env json "n1" valid).1)
unfolding cert_rotator.Host.pure cert_rotator.Host.fail cert_rotator.Host.crash
    cert_rotator.Host.gets cert_rotator.Host.wrap cert_rotator.Host.attempt cert_rotator.Host.lift
    cert_rotator.Host.◌>>=◌ cert_rotator.Host.log_error cert_rotator.Host.next_call
    cert_rotator.Host.emit cert_rotator.Host.modify_status cert_rotator.Host.now
    cert_rotator.Host.range_map cert_rotator.Host.fallible cert_rotator.Host.look_up
    cert_rotator.Host.stat cert_rotator.Host.read_file cert_rotator.Host.make_dirs
    cert_rotator.Host.mkdir_all cert_rotator.Host.put_file cert_rotator.Host.write_with
    cert_rotator.Host.write_file cert_rotator.Host.open_truncated cert_rotator.Host.io_copy
    cert_rotator.Host.sleep cert_rotator.Host.dial cert_rotator.Host.http_get
    cert_rotator.Host.send_mail cert_rotator.Host.http_post cert_rotator.Host.patch_status
    cert_rotator.Host.get_config cert_rotator.Detector.cert_status_eq cert_rotator.Detector.classify
    cert_rotator.Detector.sub_time cert_rotator.Detector.residual_days_of
    cert_rotator.Detector.cert_info cert_rotator.Detector.parse_block
    cert_rotator.Detector.parse_pem_cert cert_rotator.Detector.parse_cert
    cert_rotator.Detector.lookup_field cert_rotator.Detector.client_cert_of
    cert_rotator.Detector.scan_user cert_rotator.Detector.scan_users
    cert_rotator.Detector.extract_client_cert_data cert_rotator.Detector.decode_cert
    cert_rotator.Detector.parse_kubeconfig_bytes cert_rotator.Detector.parse_kubeconfig_read
    cert_rotator.Detector.parse_kubeconfig_cert cert_rotator.Detector.classified
    cert_rotator.Detector.detect_pki cert_rotator.Detector.append_found
    cert_rotator.Detector.detect_kubeconfigs cert_rotator.Detector.detect
    cert_rotator.Detector.needs_renewal cert_rotator.Detector.is_urgent
    cert_rotator.Controller.is_critical cert_rotator.Controller.on_rollback
    cert_rotator.Controller.on_renewal cert_rotator.Controller.renew cert_rotator.Controller.go_idle
    cert_rotator.Controller.on_detected cert_rotator.Controller.check_certs
    cert_rotator.Controller.on_found cert_rotator.Controller.on_fetched
    cert_rotator.Controller.reconcile cert_rotator.Controller.Status.node_status
    cert_rotator.Controller.Status.ensure_nodes cert_rotator.Controller.Status.update_node
    cert_rotator.Controller.Status.patched_by cert_rotator.Controller.Status.set_node_phase
    cert_rotator.Controller.Status.set_node_backup_path
    cert_rotator.Controller.Status.set_node_renewed
    cert_rotator.Controller.Status.update_node_cert_status
    cert_rotator.Controller.Status.to_cert_statuses cert_rotator.Controller.Conditions.note_certs
    cert_rotator.Controller.Conditions.note_nodes cert_rotator.Controller.Conditions.flags_of
    cert_rotator.Controller.Conditions.cluster_phase
    cert_rotator.Controller.Conditions.with_conditions
    cert_rotator.Controller.Conditions.update_cluster_conditions
    cert_rotator.Controller.Requeue.fnv_write cert_rotator.Controller.Requeue.sum32
    cert_rotator.Controller.Requeue.requeue_interval cert_rotator.Controller.Requeue.jitter
    cert_rotator.Controller.Requeue.requeue_with_jitter cert_rotator.Base.string_dec
    cert_rotator.Base.string_eq cert_rotator.Base.path_eq cert_rotator.Api.node_phase_eq
    native.Mathlib.Decide.ℕ_discrete cert_rotator.Base.Int.◌+ℤ◌ cert_rotator.Base.Int.◌-ℤ◌
pass_ok = refl

reconcile-Settled_example :
    Settled "n1" spec (phase_of "n1" (reconcile env json "n1" valid).1.status) due
reconcile-Settled_example =
    reconcile-Settled env json "n1" spec status valid due (reconcile env json "n1" valid).1
      (λ _ _ _. refl) refl pass_ok

-- A node that is Critical, and two passes.
abbrev stuck : World
stuck = record (with_files []) {
  status = record status { nodes = ("n1", record idle_node { phase = NodePhase.critical }) ∷ [] };
}

abbrev env_stuck : Env
env_stuck = record env { get = λ _. found spec stuck.status }

abbrev once : World
once = (reconcile env_stuck json "n1" stuck).1

stuck_critical : is_critical "n1" stuck.status ≡ true
unfolding is_critical string_eq cert_rotator.Api.node_phase_eq
stuck_critical = refl

History-critical_example :
    (once.status ≡ stuck.status) × (once.files ≡ stuck.files) × (once.trace ≡ stuck.trace)
History-critical_example =
    History-critical json "n1" stuck (pass env_stuck spec start refl) stuck_critical
