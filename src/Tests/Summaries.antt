-- ===== src/Tests/Summaries.antt =====
-- Examples of what is computed from the status, the certificates and the state.
use mathlib.Core.List.Perm
use cert_rotator.Base.{
  map, ℕ, ◌+◌, ◌*◌, ◌≤◌, String, Bool, true, false, List, [], ◌∷◌, all, any, Option, none, some,
  ◌⊎◌, inl, inr, ◌≡◌, refl, arith, if◌then◌else◌, ◌==◌, string_eq, string_dec,
}
use cert_rotator.Base.Int.{ℤ, pos, leb_ℤ}
use cert_rotator.Api.{ClusterPhase, NodePhase, NodeStatus}
use cert_rotator.Host.{World, Error, Result, ok}
use cert_rotator.Detector.{Detector, DetectionResult, detect, needs_renewal, is_urgent, classified}
use cert_rotator.Detector
use cert_rotator.Detector.Coverage.{detect-Covers, InPki, InKubeconfig}
use cert_rotator.Detector.Kept.{Has}
use cert_rotator.Logger.{text_value}
use cert_rotator.Detector.Log.{log_summary}
use cert_rotator.Detector.Log.Levels.{cert_of, is_critical_line, above_info, detect-log_summary}
use cert_rotator.Detector.Classes.{detect-needs_renewal, is_due}
use cert_rotator.State.{State, Json, new, entries, set_node_rollback, set_node_backup}
use cert_rotator.State.Reach.{Reach, Step, Reach-Sound, some_failed}
use cert_rotator.Controller.Conditions.{flags_of, cluster_phase}
use cert_rotator.Controller.Conditions.Summary.{
  flags_of-Perm, flags_of_lem, is_healthy, is_renewing, is_critical,
}
use cert_rotator.Controller.Requeue.{hour, second, requeue_with_jitter}
use cert_rotator.Controller.Requeue.Bounds.{requeue_with_jitter-bounds}
use cert_rotator.Tests.Outside.{env, spec, idle_node, with_files}

abbrev critical_node : NodeStatus
critical_node = record idle_node { phase = NodePhase.critical }

abbrev two_nodes : List (String × NodeStatus)
two_nodes = ("n1", idle_node) ∷ ("n2", critical_node) ∷ []

flags_of-Perm_example :
    flags_of two_nodes ≡ flags_of (("n2", critical_node) ∷ ("n1", idle_node) ∷ [])
flags_of-Perm_example =
    flags_of-Perm two_nodes (("n2", critical_node) ∷ ("n1", idle_node) ∷ [])
      (Perm.swap ("n2", critical_node) ("n1", idle_node) [])

flags_of_lem_example :
    ((flags_of two_nodes).healthy ≡ all is_healthy two_nodes)
    × (cluster_phase (flags_of two_nodes) ≡ (
        if any is_critical two_nodes
        then ClusterPhase.failed
        else if any is_renewing two_nodes
        then ClusterPhase.renewing
        else ClusterPhase.idle))
flags_of_lem_example = flags_of_lem two_nodes

abbrev to_failed : NodeStatus → NodeStatus
to_failed ns = record ns { phase = NodePhase.failed }

abbrev n2 : String
n2 = "n2"

requeue_with_jitter-bounds_example :
    (d : ℕ) × (requeue_with_jitter "n1" spec ≡ pos d)
    × (24 * hour ≤ d)
    × (d ≤ 24 * hour + 119 * second)
requeue_with_jitter-bounds_example = requeue_with_jitter-bounds "n1" spec 24 refl (omega arith)

-- A node with the seven certificates and no kubeconfig.
abbrev certs_there : World
certs_there = with_files (
    ("pki" ∷ "apiserver.crt" ∷ [])
    ∷ ("pki" ∷ "apiserver-etcd-client.crt" ∷ [])
    ∷ ("pki" ∷ "apiserver-kubelet-client.crt" ∷ [])
    ∷ ("pki" ∷ "front-proxy-client.crt" ∷ [])
    ∷ ("pki" ∷ "etcd" ∷ "server.crt" ∷ [])
    ∷ ("pki" ∷ "etcd" ∷ "peer.crt" ∷ [])
    ∷ ("pki" ∷ "etcd" ∷ "healthcheck-client.crt" ∷ [])
    ∷ [])

abbrev detector : Detector.Detector
detector = record { pki_dir = "pki" ∷ []; kubeconfig_dir = "conf" ∷ []; threshold_days = pos 30 }

abbrev found_by : Result DetectionResult → DetectionResult
found_by (ok r) = r
found_by (Result.err e) = record { node = ""; certs = [] }
found_by (Result.panic s) = record { node = ""; certs = [] }

abbrev detected : DetectionResult
detected = found_by (detect env detector "n1" certs_there).0

detects :
    detect env detector "n1" certs_there ≡ (ok detected, (detect env detector "n1" certs_there).1)
unfolding detect cert_rotator.Host.◌>>=◌ cert_rotator.Host.range_map cert_rotator.Host.next_call
    cert_rotator.Host.pure Detector.detect_pki string_eq cert_rotator.Host.wrap Detector.parse_cert
    cert_rotator.Host.read_file cert_rotator.Host.stat cert_rotator.Host.fallible
    cert_rotator.Host.look_up cert_rotator.Base.path_eq Detector.parse_pem_cert Detector.parse_block
    cert_rotator.Host.lift cert_rotator.Base.Int.◌-ℤ◌ cert_rotator.Base.string_dec
    Detector.append_found Detector.cert_info classified Detector.classify Detector.client_cert_of
    Detector.decode_cert Detector.detect_kubeconfigs Detector.extract_client_cert_data
    Detector.lookup_field Detector.parse_kubeconfig_bytes Detector.parse_kubeconfig_cert
    Detector.parse_kubeconfig_read Detector.residual_days_of Detector.scan_user Detector.scan_users
    Detector.sub_time cert_rotator.Host.attempt cert_rotator.Host.fail cert_rotator.Host.now
detects = refl

detect-needs_renewal_example :
    (needs_renewal detected ≡ any (is_due detector) detected.certs)
    × (is_urgent detected ≡ any (λ c. leb_ℤ c.residual_days (pos 0)) detected.certs)
detect-needs_renewal_example =
    detect-needs_renewal env detector "n1" 30 certs_there detected
      (detect env detector "n1" certs_there).1 refl detects

detect-log_summary_example :
    (map cert_of (log_summary env detected) ≡ map (λ c. some (text_value c.name)) detected.certs)
    × (any is_critical_line (log_summary env detected) ≡ is_urgent detected)
    × (any (λ e. above_info e.level) (log_summary env detected) ≡ needs_renewal detected)
detect-log_summary_example =
    detect-log_summary env detector "n1" certs_there detected
      (detect env detector "n1" certs_there).1 detects

detect-Covers_example :
    Has
      (InPki env detector "apiserver"
        ("pki" ∷ "apiserver.crt" ∷ [])
        (certs_there.files ("pki" ∷ "apiserver.crt" ∷ [])))
      detected.certs
    × ((certs_there.files ("conf" ∷ "admin.conf" ∷ []) ≡ none)
        ⊎ Has
            (InKubeconfig env detector "admin.conf"
              ("conf" ∷ "admin.conf" ∷ [])
              (certs_there.files ("conf" ∷ "admin.conf" ∷ [])))
            detected.certs)
unfolding string_eq string_dec
detect-Covers_example =
    detect-Covers env detector "n1" "apiserver" "admin.conf" ("apiserver.crt" ∷ [])
      ("admin.conf" ∷ []) certs_there detected (detect env detector "n1" certs_there).1 (λ _. refl)
      (λ _. refl) refl refl detects

-- A rollback that failed.
abbrev json : Json
json = record { marshal = λ _. inr (3 ∷ []); unmarshal = λ _. inr new }

abbrev state_of : Result (State × (Error ⊎ Unit {0})) → State
state_of (ok r) = r.0
state_of (Result.err e) = new
state_of (Result.panic s) = new

abbrev failed_once : State
failed_once = state_of (set_node_rollback env json "n1" true [] new (with_files [])).0

fails :
    (set_node_rollback env json "n1" true [] new (with_files [])
      ≡ (ok (failed_once, inr tt), (set_node_rollback env json "n1" true [] new (with_files [])).1))
    × (some_failed (entries failed_once) ≡ true)
unfolding set_node_rollback cert_rotator.State.store_node cert_rotator.Host.◌>>=◌
    cert_rotator.Host.now cert_rotator.Host.next_call cert_rotator.Host.pure cert_rotator.State.save
    cert_rotator.Host.attempt cert_rotator.State.write_state cert_rotator.Host.lift
    cert_rotator.Host.mkdir_all cert_rotator.Host.fallible cert_rotator.Host.make_dirs
    cert_rotator.Host.write_file cert_rotator.Host.write_with cert_rotator.Host.put_file new
fails = (refl, refl)

Reach-Sound_example : failed_once.critical ≡ true
Reach-Sound_example =
    Reach-Sound failed_once
      (Reach.step Reach.start (
        Step.restored env json "n1" true [] (inr tt) (with_files [])
          (set_node_rollback env json "n1" true [] new (with_files [])).1 fails.0))
      fails.1
