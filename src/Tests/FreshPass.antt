-- ===== src/Tests/FreshPass.antt =====
-- An example of a pass that renews a certificate.
use cert_rotator.Base.{
  String, List, [], ◌∷◌, ◌++◌, All, Option, none, some, ◌==◌, ◌≡◌, ◌≢◌, false, refl, ap, arith, inr,
  ℕ, if◌then◌else◌, nat_eq, string_eq, string_dec, path_eq, ◌+◌, Bool,
}
use cert_rotator.Base.Int.{ℤ, pos}
use cert_rotator.Api.{FilePath, NodePhase}
use cert_rotator.Host.{Env, Bytes, Certificate, File, World, Result, ok, err, panic}
use cert_rotator.Detector
use cert_rotator.Detector.{CertInfo, DetectionResult, detect}
use cert_rotator.State.{Json, new}
use cert_rotator.Controller.{reconcile, detector_of}
use cert_rotator.Controller.Status.{set_node_phase}
use cert_rotator.Controller.Fresh.{reconcile-Renewed}
use cert_rotator.Controller.Phase.{phase_of}
use cert_rotator.Controller.Renewal.Issued.{Renewed}
use cert_rotator.Controller.Renewal.Pipeline.{Others, AtItsPath}
use cert_rotator.Signer.{ca_for_cert}
use cert_rotator.Tests.Renewals.{differ, cert_in, safe, spec-IsApart}
use cert_rotator.Tests.Outside.{env, cert, spec, status, file, with_files}

abbrev pub json : Json
json = record { marshal = λ _. inr (3 ∷ []); unmarshal = λ _. inr new }

abbrev first_byte : Bytes → ℕ
first_byte [] = 0
first_byte (b ∷ bs) = b

-- A file that begins with 5 holds an expired certificate.
abbrev parsed : ℕ → Certificate
parsed b = if b == 5 then record cert { not_after = pos 0 } else cert

abbrev pub env_due : Env
env_due = record env { parse_certificate = λ bytes. inr (parsed (first_byte bytes)) }

abbrev there : World
there = with_files (
    ("pki" ∷ "apiserver-etcd-client.crt" ∷ [])
    ∷ ("pki" ∷ "apiserver-kubelet-client.crt" ∷ [])
    ∷ ("pki" ∷ "front-proxy-client.crt" ∷ [])
    ∷ ("pki" ∷ "etcd" ∷ "server.crt" ∷ [])
    ∷ ("pki" ∷ "etcd" ∷ "peer.crt" ∷ [])
    ∷ ("pki" ∷ "etcd" ∷ "healthcheck-client.crt" ∷ [])
    ∷ ("etc" ∷ "kubernetes" ∷ "pki" ∷ "ca.crt" ∷ [])
    ∷ ("etc" ∷ "kubernetes" ∷ "pki" ∷ "ca.key" ∷ [])
    ∷ ("manifests" ∷ "etcd.yaml" ∷ [])
    ∷ ("manifests" ∷ "kube-apiserver.yaml" ∷ [])
    ∷ ("manifests" ∷ "kube-controller-manager.yaml" ∷ [])
    ∷ ("manifests" ∷ "kube-scheduler.yaml" ∷ [])
    ∷ [])

abbrev pub start : World
start = record there {
  files = λ p.
      if p == "pki" ∷ "apiserver.crt" ∷ []
      then some (record file { content = 5 ∷ [] })
      else there.files p;
}

abbrev begun : World
begun =
    (set_node_phase env_due "n1" NodePhase.detecting ""
      (record start { calls = start.calls + 1; status = status })).1

abbrev ended : World
ended = (reconcile env_due json "n1" start).1

abbrev pub value_of : Result ℤ → ℤ
value_of (ok d) = d
value_of (err e) = pos 0
value_of (panic s) = pos 0

abbrev next : ℤ
next = value_of (reconcile env_due json "n1" start).0

abbrev apiserver : CertInfo
apiserver = record {
  name = "apiserver";
  path = "pki" ∷ "apiserver.crt" ∷ [];
  expiry = pos 0;
  residual_days = pos 0;
  status = Detector.CertStatus.expired;
  subject = "kube-apiserver";
  dns_names = "kubernetes" ∷ [];
  ip_addresses = "10.0.0.1" ∷ [];
}

abbrev valid : String → FilePath → CertInfo
valid name path = record apiserver {
  name = name;
  path = "pki" ∷ path;
  expiry = pos 25920000000000000;
  residual_days = pos 299;
  status = Detector.CertStatus.ok;
}

abbrev others : List CertInfo
others =
    valid "apiserver-etcd-client" ("apiserver-etcd-client.crt" ∷ [])
    ∷ valid "apiserver-kubelet-client" ("apiserver-kubelet-client.crt" ∷ [])
    ∷ valid "front-proxy-client" ("front-proxy-client.crt" ∷ [])
    ∷ valid "etcd-server" ("etcd" ∷ "server.crt" ∷ [])
    ∷ valid "etcd-peer" ("etcd" ∷ "peer.crt" ∷ [])
    ∷ valid "etcd-healthcheck-client" ("etcd" ∷ "healthcheck-client.crt" ∷ [])
    ∷ []

abbrev pub seen : DetectionResult
seen = record { node = "n1"; certs = apiserver ∷ others }

abbrev after_detection : World
after_detection = (detect env_due (detector_of spec) "n1" begun).1

run_lem :
    ((reconcile env_due json "n1" start ≡ (ok next, ended))
      × (phase_of "n1" ended.status ≡ NodePhase.idle))
    × (detect env_due (detector_of spec) "n1" begun ≡ (ok seen, after_detection))
unfolding cert_rotator.Host.pure cert_rotator.Host.fail cert_rotator.Host.crash
    cert_rotator.Host.gets cert_rotator.Host.wrap cert_rotator.Host.attempt cert_rotator.Host.lift
    cert_rotator.Host.◌>>=◌ cert_rotator.Host.log_error cert_rotator.Host.next_call
    cert_rotator.Host.emit cert_rotator.Host.modify_status cert_rotator.Host.now
    cert_rotator.Host.range_map cert_rotator.Host.fallible cert_rotator.Host.look_up
    cert_rotator.Host.stat cert_rotator.Host.read_file cert_rotator.Host.make_dirs
    cert_rotator.Host.mkdir_all cert_rotator.Host.put_file cert_rotator.Host.write_with
    cert_rotator.Host.write_file cert_rotator.Host.open_truncated cert_rotator.Host.io_copy
    cert_rotator.Host.sleep cert_rotator.Host.dial cert_rotator.Host.http_get
    cert_rotator.Host.send_mail cert_rotator.Host.http_post cert_rotator.Host.patch_status
    cert_rotator.Host.get_config cert_rotator.Detector.cert_status_eq cert_rotator.Detector.classify
    cert_rotator.Detector.sub_time cert_rotator.Detector.residual_days_of
    cert_rotator.Detector.cert_info cert_rotator.Detector.parse_block
    cert_rotator.Detector.parse_pem_cert cert_rotator.Detector.parse_cert
    cert_rotator.Detector.lookup_field cert_rotator.Detector.client_cert_of
    cert_rotator.Detector.scan_user cert_rotator.Detector.scan_users
    cert_rotator.Detector.extract_client_cert_data cert_rotator.Detector.decode_cert
    cert_rotator.Detector.parse_kubeconfig_bytes cert_rotator.Detector.parse_kubeconfig_read
    cert_rotator.Detector.parse_kubeconfig_cert cert_rotator.Detector.classified
    cert_rotator.Detector.detect_pki cert_rotator.Detector.append_found
    cert_rotator.Detector.detect_kubeconfigs cert_rotator.Detector.detect
    cert_rotator.Detector.needs_renewal cert_rotator.Detector.is_urgent
    cert_rotator.Controller.is_critical cert_rotator.Controller.on_rollback
    cert_rotator.Controller.on_renewal cert_rotator.Controller.renew cert_rotator.Controller.go_idle
    cert_rotator.Controller.on_detected cert_rotator.Controller.check_certs
    cert_rotator.Controller.on_found cert_rotator.Controller.on_fetched
    cert_rotator.Controller.reconcile cert_rotator.Controller.Status.node_status
    cert_rotator.Controller.Status.ensure_nodes cert_rotator.Controller.Status.update_node
    cert_rotator.Controller.Status.patched_by cert_rotator.Controller.Status.set_node_phase
    cert_rotator.Controller.Status.set_node_backup_path
    cert_rotator.Controller.Status.set_node_renewed
    cert_rotator.Controller.Status.update_node_cert_status
    cert_rotator.Controller.Status.to_cert_statuses cert_rotator.Controller.Conditions.note_certs
    cert_rotator.Controller.Conditions.note_nodes cert_rotator.Controller.Conditions.flags_of
    cert_rotator.Controller.Conditions.cluster_phase
    cert_rotator.Controller.Conditions.with_conditions
    cert_rotator.Controller.Conditions.update_cluster_conditions
    cert_rotator.Controller.Requeue.fnv_write cert_rotator.Controller.Requeue.sum32
    cert_rotator.Controller.Requeue.requeue_interval cert_rotator.Controller.Requeue.jitter
    cert_rotator.Controller.Requeue.requeue_with_jitter cert_rotator.Base.string_dec
    cert_rotator.Base.string_eq cert_rotator.Base.path_eq cert_rotator.Api.node_phase_eq
    native.Mathlib.Decide.ℕ_discrete cert_rotator.Base.Int.◌+ℤ◌ cert_rotator.Base.Int.◌-ℤ◌
    cert_rotator.Backup.copy_file cert_rotator.Backup.skip_missing cert_rotator.Backup.copy_optional
    cert_rotator.Backup.copy_pki cert_rotator.Backup.copy_kubeconfigs
    cert_rotator.Backup.copy_to_backup cert_rotator.Backup.create cert_rotator.Backup.restore
    cert_rotator.HealthCheck.addr_of cert_rotator.HealthCheck.url_of
    cert_rotator.HealthCheck.tcp_probe cert_rotator.HealthCheck.expect_ok
    cert_rotator.HealthCheck.http_probe cert_rotator.HealthCheck.check
    cert_rotator.HealthCheck.check_each cert_rotator.HealthCheck.check_all
    cert_rotator.HealthCheck.after_round cert_rotator.HealthCheck.retry
    cert_rotator.HealthCheck.check_all_with_retry cert_rotator.HealthCheck.tcp_each
    cert_rotator.HealthCheck.tcp_only_check cert_rotator.HealthCheck.note_check
    cert_rotator.HealthCheck.detail_each cert_rotator.HealthCheck.check_all_detailed
    cert_rotator.PodRestart.set_field cert_rotator.PodRestart.submap
    cert_rotator.PodRestart.annotate cert_rotator.PodRestart.annotated
    cert_rotator.PodRestart.inject_restart_annotation cert_rotator.PodRestart.find_manifest
    cert_rotator.PodRestart.rewrite_manifest cert_rotator.PodRestart.restart
    cert_rotator.PodRestart.restart_each cert_rotator.PodRestart.restart_all
    cert_rotator.Writer.write_below cert_rotator.Writer.write_cert cert_rotator.Writer.write_key
    cert_rotator.Writer.write_cert_key_pair cert_rotator.Writer.write_pair
    cert_rotator.Writer.write_each cert_rotator.Writer.write_all_certs
    cert_rotator.Writer.expect_content cert_rotator.Writer.verify_file
    cert_rotator.Writer.verify_each cert_rotator.Writer.verify cert_rotator.Generator.generate_key
    cert_rotator.Generator.filter_each cert_rotator.Generator.filter_extensions
    cert_rotator.Generator.build_template cert_rotator.Generator.read_pem_file
    cert_rotator.Generator.load_existing_cert cert_rotator.Generator.load_ca_cert
    cert_rotator.Generator.encode_key_pem cert_rotator.Generator.encode_cert_pem
    cert_rotator.Generator.rsa_key cert_rotator.Generator.parse_ca_key
    cert_rotator.Generator.load_ca_key cert_rotator.Signer.sign
    cert_rotator.Signer.sign_with_self_key cert_rotator.Signer.ca_for_cert
    cert_rotator.Controller.Renewal.write_renewed cert_rotator.Controller.Renewal.renew_cert
    cert_rotator.Controller.Renewal.renew_each cert_rotator.Controller.Renewal.renew_and_restart
    cert_rotator.Controller.Renewal.run_renewal cert_rotator.Controller.Renewal.roll_back
    cert_rotator.Controller.Renewal.run_rollback cert_rotator.Controller.Notify.send_renewal_success
    cert_rotator.Notifier.notify cert_rotator.Notifier.via
    cert_rotator.Controller.Notify.build_notifier cert_rotator.Notifier.send_smtp
    cert_rotator.Notifier.send_slack cert_rotator.Notifier.note_error
run_lem = ((refl, refl), refl)

names_differ : Others apiserver others
unfolding string_eq string_dec
names_differ = (
  differ _ "apiserver" refl,
  (
    differ _ "apiserver" refl,
    (
      differ _ "apiserver" refl,
      (differ _ "apiserver" refl, (differ _ "apiserver" refl, (differ _ "apiserver" refl, tt))),
    ),
  ),
)

is_expired : apiserver.status ≢ Detector.CertStatus.ok
is_expired = cc

apiserver-AtItsPath : AtItsPath spec apiserver
unfolding string_eq string_dec
apiserver-AtItsPath rel_cert rel_key looked_up = ap (λ o. "pki" ∷ cert_in o) looked_up

reconcile-Renewed_example : Renewed env_due spec apiserver start ended
unfolding ca_for_cert string_eq string_dec
reconcile-Renewed_example =
    reconcile-Renewed env_due (λ _ _ _. refl) json "n1" spec refl spec-IsApart [] apiserver others
      tt names_differ is_expired apiserver-AtItsPath (safe _) (safe _) status seen start refl refl
      run_lem.1 run_lem.0.0 run_lem.0.1
