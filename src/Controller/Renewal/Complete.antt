-- ===== src/Controller/Renewal/Complete.antt =====
-- Every certificate that was due is renewed on disk when a renewal succeeds.
use cert_rotator.Base.{String, false, List, Option, ◌∷◌, ◌++◌, ◌≡◌, ◌≢◌, refl, ap, ◌∙◌, arith}
use cert_rotator.Api.{FilePath, CertRotationConfigSpec}
use cert_rotator.Host.{Env, File, World, ok, is_prefix, wrap, ◌>>◌}
use cert_rotator.Host.Inversion.{>>=-eq-ok, wrap-eq-ok, Keeps-eq}
use cert_rotator.Host.Keeps.{Keeps}
use cert_rotator.Host.Frame.{FileIs, file_rules}
use cert_rotator.Backup
use cert_rotator.Backup.Frame.{create-FileIs}
use cert_rotator.Detector
use cert_rotator.Detector.{CertInfo, DetectionResult}
use cert_rotator.HealthCheck.{check_all_with_retry}
use cert_rotator.PodRestart
use cert_rotator.HealthCheck.Frame.{check_all_with_retry-FileIs}
use cert_rotator.PodRestart.Frame.{restart_all-FileIs}
use cert_rotator.Signer.{ca_for_cert}
use cert_rotator.Controller.Status.{set_node_backup_path, patched_by}
use cert_rotator.Controller.Renewal.{timeout_of, backup_manager, renew_and_restart, run_renewal}
use cert_rotator.Controller.Renewal.Issued.{Renewed}
use cert_rotator.Controller.Renewal.Pipeline.{
  IsSafe, Others, AtItsPath, Renewed-between, renew_each-Renewed,
}

-- The certificates' files are no backups and no manifests.
pub record IsApart (spec : CertRotationConfigSpec) : Type 0 where
  pub no_backups : (rel : FilePath) → is_prefix spec.backup_dir (spec.pki_dir ++ rel) ≡ false
  pub no_manifests : (rel : FilePath) → is_prefix spec.manifests_dir (spec.pki_dir ++ rel) ≡ false

module _ {q : FilePath} {x : Option File} (env : Env) (node : String)
    (spec : CertRotationConfigSpec) where
  pub path-FileIs : (path : FilePath) → Keeps (FileIs q x) (set_node_backup_path env node path)
  unfolding set_node_backup_path patched_by
  path-FileIs path = search file_rules

  -- What follows the renewals.
  restart-FileIs :
      is_prefix spec.manifests_dir q ≡ false
      → Keeps (FileIs q x) (
          wrap "static pod restart failed" (
            PodRestart.restart_all env
              (record { manifest_dir = spec.manifests_dir; dry_run = false }))
          >> wrap "health check failed after cert renewal" (
              check_all_with_retry env
                (record { node = node; timeout = timeout_of spec; dry_run = false })
                spec.health_check_max_attempts
                15))
  restart-FileIs out =
      search (file_rules, restart_all-FileIs env _ (λ _. out), check_all_with_retry-FileIs) depth 8

-- The backup and its path in the status.
backup-same :
    (env : Env) (node : String) (spec : CertRotationConfigSpec) (q : FilePath) (w : World)
    {b : Backup.Backup} {w1 w2 : World}
    → is_prefix spec.backup_dir q ≡ false
    → wrap "cert backup failed" (Backup.create env (backup_manager spec) node) w ≡ (ok b, w1)
    → wrap "persisting backup path to status" (set_node_backup_path env node b.backup_path) w1
      ≡ (ok tt, w2)
    → w2.files q ≡ w.files q
backup-same env node spec q w {b} {w1} out backed noted =
    let first =
      (Keeps-eq (FileIs q (w.files q)) _ w (create-FileIs env (backup_manager spec) node out)
        (record { same = refl }) (wrap-eq-ok _ _ w backed)).same in
    let second =
      (Keeps-eq (FileIs q (w1.files q)) _ w1 (path-FileIs env node spec b.backup_path)
        (record { same = refl }) (wrap-eq-ok _ _ w1 noted)).same in
    second ∙ first

renew_and_restart-Renewed :
    (env : Env) (node : String) (spec : CertRotationConfigSpec) (detected : DetectionResult)
    (before : List CertInfo) (info : CertInfo) (after : List CertInfo) (w : World) {w' : World}
    → detected.certs ≡ before ++ (info ∷ after)
    → Others info before
    → Others info after
    → info.status ≢ Detector.CertStatus.ok
    → AtItsPath spec info
    → IsSafe spec (ca_for_cert info.name).0
    → IsSafe spec (ca_for_cert info.name).1
    → IsApart spec
    → renew_and_restart env node spec detected w ≡ (ok tt, w')
    → Renewed env spec info w w'
unfolding renew_and_restart
renew_and_restart-Renewed env node spec detected before info after w {w'} split others_1 others_2
      due at_path ca_safe key_safe is_apart done =
    let (_, w1, renewals, rest) = >>=-eq-ok _ _ w done in
    let renewed =
      renew_each-Renewed env spec before info after w others_1 others_2 due at_path ca_safe key_safe
        (rw split at renewals) in
    let kept : (rel : FilePath) → w'.files (spec.pki_dir ++ rel) ≡ w1.files (spec.pki_dir ++ rel) =
      λ rel.
        (Keeps-eq (FileIs (spec.pki_dir ++ rel) (w1.files (spec.pki_dir ++ rel))) _ w1
          (restart-FileIs env node spec (is_apart.no_manifests rel)) (record { same = refl })
          rest).same in
    Renewed-between env spec info w w1 w w' renewed refl refl refl (kept renewed.cert)
      (kept renewed.key)

-- If a renewal succeeds and is no dry run, each certificate of the detection that was not OK is
-- renewed: where the writer has the files of its name there are, in PEM, a certificate and the key
-- that was generated for it, and the certificate was created with the CA certificate and the CA key
-- that were in the files for its name before, for a template that mirrors the certificate that was
-- at its path before and is valid from ten minutes before the moment of its making to 365 days
-- after it. The conditions: no other certificate of the detection has its name, its path is the one
-- that the writer has for its name, and the CA's files, the backups, the manifests and the files of
-- the certificates do not overlap.
pub run_renewal-Renewed :
    (env : Env) (node : String) (spec : CertRotationConfigSpec) (detected : DetectionResult)
    (before : List CertInfo) (info : CertInfo) (after : List CertInfo) (w w' : World)
    → spec.dry_run ≡ false
    → detected.certs ≡ before ++ (info ∷ after)
    → Others info before
    → Others info after
    → info.status ≢ Detector.CertStatus.ok
    → AtItsPath spec info
    → IsSafe spec (ca_for_cert info.name).0
    → IsSafe spec (ca_for_cert info.name).1
    → IsApart spec
    → run_renewal env node spec detected w ≡ (ok tt, w')
    → Renewed env spec info w w'
unfolding run_renewal
run_renewal-Renewed env node spec detected before info after w w' real split others_1 others_2 due
      at_path ca_safe key_safe is_apart done =
    let (b, w1, backed, d1) = >>=-eq-ok _ _ w done in
    let (_, w2, noted, d2) = >>=-eq-ok _ _ w1 d1 in
    let renewed =
      renew_and_restart-Renewed env node spec detected before info after w2 split others_1 others_2
        due at_path ca_safe key_safe is_apart (ground (arith, real, d2)) in
    let out : is_prefix spec.backup_dir info.path ≡ false =
      ap (is_prefix spec.backup_dir) (at_path renewed.cert renewed.key renewed.has_paths)
      ∙ is_apart.no_backups renewed.cert in
    Renewed-between env spec info w2 w' w w' renewed
      (backup-same env node spec info.path w out backed noted)
      (backup-same env node spec _ w ca_safe.no_backup backed noted)
      (backup-same env node spec _ w key_safe.no_backup backed noted) refl refl
