-- ===== src/Tests/Rollbacks.antt =====
-- Examples of rollbacks.
use mathlib.Core.List
use cert_rotator.Base.{
  String, Bool, true, false, ◌||◌, List, [], ◌∷◌, map, contains, Option, none, some, ◌⊎◌, inl, inr,
  ◌≡◌, ◌≢◌, refl, ◌==◌, string_eq, string_dec, path_eq, if◌then◌else◌, ◌<>◌,
}
use cert_rotator.Base.Int.{pos}
use cert_rotator.Host.{World, Error, message, Result, ok, err, panic}
use cert_rotator.Host.Calm.{nil_map}
use cert_rotator.Rollback
use cert_rotator.Rollback.{RollbackResult, rollback_all, nodes_to_rollback, is_critical}
use cert_rotator.Rollback.Nil.{nil_dereference}
use cert_rotator.Rollback.Order.{nodes_to_rollback_once, nodes_to_rollback_order}
use cert_rotator.Rollback.Outcome.{rollback_all-Reports, critical_of, Reports}
use cert_rotator.Rollback.Returned.{NilMap, rollback_all-returns}
use cert_rotator.Rollback.Reverse.{Distinct}
use cert_rotator.State.{State, Json, new}
use cert_rotator.Controller.Renewal.{run_rollback}
use cert_rotator.Controller.Rollback.{run_rollback_lem}
use cert_rotator.Controller.Status.{node_status}
use cert_rotator.Tests.Outside.{env, spec, with_files}

abbrev renewed : List String
renewed = "n1" ∷ "n2" ∷ []

renewed-Distinct : Distinct renewed
unfolding string_eq
renewed-Distinct = (refl, (refl, tt))

apart : contains "n3" renewed ≡ false
unfolding string_eq
apart = refl

nodes_to_rollback_order_example : nodes_to_rollback renewed "n3" ≡ "n3" ∷ List.reverse renewed
nodes_to_rollback_order_example = nodes_to_rollback_order renewed "n3" renewed-Distinct apart

nodes_to_rollback_once_example :
    ((n : String) → contains n (nodes_to_rollback renewed "n2") ≡ (n == "n2" || contains n renewed))
    × Distinct (nodes_to_rollback renewed "n2")
nodes_to_rollback_once_example = nodes_to_rollback_once renewed "n2"

abbrev manager : Rollback.Manager
manager = record {
  backup_mgr = record {
    backup_dir = "backups" ∷ [];
    pki_dir = "pki" ∷ [];
    kubeconfig_dir = "conf" ∷ [];
  };
  restart_mgr = record { manifest_dir = "manifests" ∷ []; dry_run = true };
  state_file = "state.json" ∷ [];
  dry_run = false;
}

abbrev json : Json
json = record { marshal = λ _. inr (3 ∷ []); unmarshal = λ _. inr new }

-- The state knows a backup of n1 and none of n2.
abbrev state : State
state = record new {
  nodes = some (
      (
        "n1",
        record {
          node = "n1";
          backup_path = "backups" ∷ "n1" ∷ "now" ∷ [];
          renewed_at = none;
          rolled_back_at = none;
          renewal_failed = false;
          rollback_failed = false;
        },
      )
      ∷ []);
}

abbrev start : World
start = with_files (("manifests" ∷ "etcd.yaml" ∷ []) ∷ [])

abbrev outcome_of : Result (List RollbackResult × Option State) → List RollbackResult × Option State
outcome_of (ok r) = r
outcome_of (err e) = ([], none)
outcome_of (panic s) = ([], none)

abbrev outcome : List RollbackResult × Option State
outcome = outcome_of (rollback_all env json manager ("n1" ∷ []) "n2" (some state) (pos 5) start).0

rolls_back :
    rollback_all env json manager ("n1" ∷ []) "n2" (some state) (pos 5) start
    ≡ (ok outcome, (rollback_all env json manager ("n1" ∷ []) "n2" (some state) (pos 5) start).1)
unfolding rollback_all Rollback.rollback_each nodes_to_rollback Rollback.unique_from
    cert_rotator.Host.◌>>=◌ Rollback.rollback_node Rollback.rollback_known string_eq
    cert_rotator.Host.pure Rollback.record_rollback cert_rotator.State.set_node_rollback
    cert_rotator.State.store_node cert_rotator.Host.now cert_rotator.Host.next_call
    cert_rotator.State.save cert_rotator.Host.attempt cert_rotator.State.write_state
    cert_rotator.Host.lift cert_rotator.Backup.copy_file cert_rotator.Backup.copy_kubeconfigs
    cert_rotator.Backup.copy_optional cert_rotator.Backup.copy_pki cert_rotator.Backup.restore
    cert_rotator.Backup.skip_missing cert_rotator.Base.Decimal.itoa path_eq string_dec
    cert_rotator.Detector.lookup_field cert_rotator.HealthCheck.addr_of
    cert_rotator.HealthCheck.after_round cert_rotator.HealthCheck.check
    cert_rotator.HealthCheck.check_all cert_rotator.HealthCheck.check_all_with_retry
    cert_rotator.HealthCheck.check_each cert_rotator.HealthCheck.expect_ok
    cert_rotator.HealthCheck.http_probe cert_rotator.HealthCheck.retry
    cert_rotator.HealthCheck.tcp_probe cert_rotator.HealthCheck.url_of cert_rotator.Host.fallible
    cert_rotator.Host.io_copy cert_rotator.Host.look_up cert_rotator.Host.make_dirs
    cert_rotator.Host.mkdir_all cert_rotator.Host.open_truncated cert_rotator.Host.put_file
    cert_rotator.Host.read_file cert_rotator.Host.stat cert_rotator.Host.write_file
    cert_rotator.Host.write_with cert_rotator.Host.crash cert_rotator.Host.emit
    cert_rotator.Host.fail cert_rotator.Host.wrap cert_rotator.Host.dial cert_rotator.Host.http_get
    cert_rotator.Host.sleep cert_rotator.PodRestart.annotate cert_rotator.PodRestart.annotated
    cert_rotator.PodRestart.find_manifest cert_rotator.PodRestart.inject_restart_annotation
    cert_rotator.PodRestart.restart cert_rotator.PodRestart.restart_all
    cert_rotator.PodRestart.restart_each cert_rotator.PodRestart.rewrite_manifest
    cert_rotator.PodRestart.set_field cert_rotator.PodRestart.submap Rollback.failed_result
    Rollback.no_backup Rollback.restore_node Rollback.restored_result Rollback.reverse
    Rollback.rollback_to Rollback.swap Rollback.swap_loop cert_rotator.State.node_state
    native.Mathlib.Decide.ℕ_discrete
rolls_back = refl

rollback_all-Reports_example :
    (map (λ r. r.node) outcome.0 ≡ nodes_to_rollback ("n1" ∷ []) "n2")
    × (critical_of outcome.1 ≡ (is_critical outcome.0 || false))
unfolding new
rollback_all-Reports_example =
    rollback_all-Reports env json manager ("n1" ∷ []) "n2" state (pos 5) start rolls_back

rollback_all-returns_example :
    ((out : List RollbackResult × Option State) × (w' : World) × (rollback_all env json manager
          ("n1" ∷ [])
          "n2"
          (some state)
          (pos 5)
          start
        ≡ (ok out, w'))
      × Reports (nodes_to_rollback ("n1" ∷ []) "n2") (some state) out)
    ⊎ (((rollback_all env json manager ("n1" ∷ []) "n2" (some state) (pos 5) start).0
          ≡ panic nil_map)
        × NilMap env state)
rollback_all-returns_example =
    rollback_all-returns env json manager ("n1" ∷ []) "n2" state (pos 5) start

run_rollback_lem_example : run_rollback env json "n1" spec (message "e") start ≡ (
    if (node_status "n1" start.status).backup_path == []
    then (
      err (message ("no backup path in status for node " <> "n1" <> " — cannot roll back")),
      start,
    )
    else (panic nil_dereference, start))
run_rollback_lem_example = run_rollback_lem env json "n1" spec (message "e") start
