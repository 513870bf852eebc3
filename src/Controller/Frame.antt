-- ===== src/Controller/Frame.antt =====
-- What a pass of the reconciler leaves alone.
use mathlib.Core.Path.{subst}
use cert_rotator.Base.{
  String, false, List, [], ◌∷◌, Option, none, some, ◌⊎◌, inl, inr, ◌≡◌, refl, sym, ◌+◌,
}
use cert_rotator.Api.{
  Time, NodePhase, CertStatus, FilePath, CertRotationConfigSpec, CertRotationConfigStatus,
}
use cert_rotator.Host.{
  Env, Bytes, Error, File, World, Fetched, absent, unreachable, found, is_prefix, get_config,
  next_call, pure, ◌>>=◌,
}
use cert_rotator.Host.Keeps.{Keeps, Keeps-bind}
use cert_rotator.Host.Frame.{FileIs, file_rules}
use cert_rotator.Backup.Frame.{create-FileIs}
use cert_rotator.Detector.{CertInfo, DetectionResult}
use cert_rotator.Detector.Frame.{detect-FileIs}
use cert_rotator.Generator.Frame.{
  load_existing_cert-FileIs, load_ca_cert-FileIs, load_ca_key-FileIs,
}
use cert_rotator.HealthCheck.Frame.{check_all_with_retry-FileIs}
use cert_rotator.Notifier.Frame.{notify-FileIs, notify_critical-FileIs}
use cert_rotator.PodRestart.Frame.{restart_all-FileIs}
use cert_rotator.Signer.Frame.{sign_with_self_key-FileIs}
use cert_rotator.State.{Json}
use cert_rotator.Writer.Frame.{write_cert_key_pair-FileIs}
use cert_rotator.Controller.{
  on_rollback, on_renewal, renew, go_idle, on_detected, check_certs, on_found, on_fetched,
  reconcile,
}
use cert_rotator.Controller.Status.{
  patched_by, set_node_phase, set_node_backup_path, set_node_renewed, update_node_cert_status,
}
use cert_rotator.Controller.Conditions.{update_cluster_conditions}
use cert_rotator.Controller.Renewal.{
  write_renewed, renew_cert, renew_each, renew_and_restart, run_renewal, run_rollback,
}
use cert_rotator.Controller.Rollback.{run_rollback_same}
use cert_rotator.Controller.Notify.{
  send_renewal_success, send_rollback_notification, send_critical_alert,
}

-- The path is outside the directories that a pass writes to: the backups', and without a dry run
-- those of the certificates and of the manifests.
abbrev pub Outside : FilePath → CertRotationConfigSpec → Type 0
Outside q spec =
    (is_prefix spec.backup_dir q ≡ false)
    × (spec.dry_run ≡ false → is_prefix spec.pki_dir q ≡ false)
    × (spec.dry_run ≡ false → is_prefix spec.manifests_dir q ≡ false)

module _ {q : FilePath} {x : Option File} (env : Env) (node : String) where
  update_cluster_conditions-FileIs : Keeps (FileIs q x) (update_cluster_conditions env)
  unfolding update_cluster_conditions
  update_cluster_conditions-FileIs = search file_rules depth 8

  patched_by-FileIs :
      (f : CertRotationConfigStatus → CertRotationConfigStatus)
      → Keeps (FileIs q x) (patched_by env f)
  unfolding patched_by
  patched_by-FileIs f = search file_rules

  -- The steps that concern the status only.
  pub set_node_phase-FileIs :
      (p : NodePhase) (reason : String) → Keeps (FileIs q x) (set_node_phase env node p reason)
  unfolding set_node_phase
  set_node_phase-FileIs p reason = search (patched_by-FileIs)

  pub update_node_cert_status-FileIs :
      (certs : List CertStatus) (t : Time)
      → Keeps (FileIs q x) (update_node_cert_status env node certs t)
  unfolding update_node_cert_status
  update_node_cert_status-FileIs certs t = search (patched_by-FileIs)

  pub on_success-FileIs :
      (spec : CertRotationConfigSpec) (json : Json)
      → Keeps (FileIs q x) (on_renewal env json node spec (inr tt))
  unfolding on_renewal set_node_renewed send_renewal_success
  on_success-FileIs spec json =
      search (file_rules, patched_by-FileIs, notify-FileIs, update_cluster_conditions-FileIs) depth
        8

  -- What follows the backup in a renewal that is no dry run.
  module _ (spec : CertRotationConfigSpec) (no_cert : is_prefix spec.pki_dir q ≡ false)
      (no_manifest : is_prefix spec.manifests_dir q ≡ false) where
    write_renewed-FileIs :
        (name : String) (pems : Bytes × Bytes) (paths : Option (FilePath × FilePath))
        → Keeps (FileIs q x) (write_renewed env spec name pems paths)
    unfolding write_renewed
    write_renewed-FileIs name pems none = search file_rules
    write_renewed-FileIs name (cert, key) (some (rel_cert, rel_key)) =
        search (file_rules, write_cert_key_pair-FileIs env _ no_cert)

    renew_cert-FileIs : (info : CertInfo) → Keeps (FileIs q x) (renew_cert env spec info)
    unfolding renew_cert
    renew_cert-FileIs info =
        search
          (
            file_rules, load_existing_cert-FileIs, load_ca_cert-FileIs, load_ca_key-FileIs,
            sign_with_self_key-FileIs, write_renewed-FileIs,
          )
          depth 12

    renew_each-FileIs : (certs : List CertInfo) → Keeps (FileIs q x) (renew_each env spec certs)
    unfolding renew_each
    renew_each-FileIs [] = search file_rules
    renew_each-FileIs (info ∷ certs) =
        Keeps-bind _ _ (search (file_rules, renew_cert-FileIs)) (λ _. renew_each-FileIs certs)

    pub renew_and_restart-FileIs :
        (r : DetectionResult) → Keeps (FileIs q x) (renew_and_restart env node spec r)
    unfolding renew_and_restart
    renew_and_restart-FileIs r =
        search
          (
            file_rules,
            renew_each-FileIs,
            restart_all-FileIs env _ (λ _. no_manifest),
            check_all_with_retry-FileIs,
          )
          depth 8

  module _ (spec : CertRotationConfigSpec) (out : Outside q spec) where
    renewals-FileIs :
        (r : DetectionResult)
        → spec.dry_run ≡ false
        → Keeps (FileIs q x) (renew_and_restart env node spec r)
    renewals-FileIs r real = renew_and_restart-FileIs spec (out.1 real) (out.2 real) r

    run_renewal-FileIs : (r : DetectionResult) → Keeps (FileIs q x) (run_renewal env node spec r)
    unfolding run_renewal set_node_backup_path
    run_renewal-FileIs r =
        search (file_rules, patched_by-FileIs, create-FileIs env _ node out.0, renewals-FileIs r)
          depth 8

    run_rollback-FileIs :
        (json : Json) (e : Error) → Keeps (FileIs q x) (run_rollback env json node spec e)
    run_rollback-FileIs json e = record {
      at = λ w h. subst (FileIs q x) (sym (run_rollback_same env json node spec e w)) h;
    }

    on_rollback-FileIs :
        (e : Error) (r : Error ⊎ Unit {0}) → Keeps (FileIs q x) (on_rollback env node spec e r)
    unfolding on_rollback set_node_phase send_critical_alert send_rollback_notification
    on_rollback-FileIs e (inl e') =
        search
          (file_rules, patched_by-FileIs, notify_critical-FileIs, update_cluster_conditions-FileIs)
          depth 8
    on_rollback-FileIs e (inr _) =
        search (file_rules, patched_by-FileIs, notify-FileIs, update_cluster_conditions-FileIs)
          depth 8

    on_renewal-FileIs :
        (json : Json) (r : Error ⊎ Unit {0}) → Keeps (FileIs q x) (on_renewal env json node spec r)
    unfolding on_renewal set_node_phase set_node_renewed send_renewal_success
    on_renewal-FileIs json (inl e) =
        search (file_rules, patched_by-FileIs, run_rollback-FileIs, on_rollback-FileIs) depth 8
    on_renewal-FileIs json (inr _) = on_success-FileIs spec json

    on_detected-FileIs :
        (json : Json) (r : Error ⊎ DetectionResult)
        → Keeps (FileIs q x) (on_detected env json node spec r)
    unfolding on_detected renew go_idle set_node_phase update_node_cert_status
    on_detected-FileIs json (inl e) = search (file_rules, patched_by-FileIs) depth 8
    on_detected-FileIs json (inr r) =
        search
          (
            file_rules, patched_by-FileIs, run_renewal-FileIs, on_renewal-FileIs,
            update_cluster_conditions-FileIs,
          )
          depth 12

    on_found-FileIs : (json : Json) → Keeps (FileIs q x) (on_found env json node spec)
    unfolding on_found check_certs set_node_phase
    on_found-FileIs json =
        search (file_rules, patched_by-FileIs, detect-FileIs, on_detected-FileIs) depth 8

  on_fetched-FileIs :
      (json : Json) (fetched : Fetched)
      → ((spec : CertRotationConfigSpec) (status : CertRotationConfigStatus)
          → fetched ≡ found spec status
          → Outside q spec)
      → Keeps (FileIs q x) (on_fetched env json node fetched)
  unfolding on_fetched
  on_fetched-FileIs json absent out = search file_rules
  on_fetched-FileIs json (unreachable e) out = search file_rules
  on_fetched-FileIs json (found spec status) out =
      search (file_rules, on_found-FileIs spec (out spec status refl))

-- A pass of the reconciler, whatever it does and however it ends, leaves each file as it is that is
-- outside the backup directory and, unless the configuration asks for a dry run, outside the
-- certificate and the manifest directory.
pub reconcile-keeps :
    (env : Env) (json : Json) (node : String) (q : FilePath) (w : World)
    → ((spec : CertRotationConfigSpec) (status : CertRotationConfigStatus)
        → env.get w.calls ≡ found spec status
        → Outside q spec)
    → (reconcile env json node w).1.files q ≡ w.files q
unfolding reconcile get_config next_call pure ◌>>=◌
reconcile-keeps env json node q w out =
    ((on_fetched-FileIs env node json (env.get w.calls) out).at (record w { calls = w.calls + 1 })
      (record { same = refl })).same
