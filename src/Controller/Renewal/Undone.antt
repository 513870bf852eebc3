-- ===== src/Controller/Renewal/Undone.antt =====
-- A renewal can be undone by its backup, however it ends.
use mathlib.Core.List.{append_assoc}
use cert_rotator.Base.{
  String, path_eq, true, false, [], ◌∷◌, ◌++◌, All, Option, some, ◌≡◌, ◌≢◌, refl, sym, ap, ◌∙◌,
  contains, if◌then◌else◌,
}
use cert_rotator.Api.{FilePath, CertRotationConfigSpec}
use cert_rotator.Host.{Env, File, World, Exec, ok, pure, is_prefix, wrap, ◌>>◌}
use cert_rotator.Host.Inversion.{>>=-done}
use cert_rotator.Host.Keeps.{Keeps}
use cert_rotator.Host.Frame.{FileIs, file_rules, append-ne}
use cert_rotator.Backup.{Backup, create, restore, pki_files, kubeconfig_files}
use cert_rotator.Backup.RoundTrip.{restore-create}
use cert_rotator.Backup.Cleanup.Restorable.{create-path}
use cert_rotator.Detector.{DetectionResult}
use cert_rotator.Controller.Frame.{renew_and_restart-FileIs}
use cert_rotator.Controller.Status.{set_node_backup_path}
use cert_rotator.Controller.Renewal.{backup_manager, renew_and_restart, run_renewal}
use cert_rotator.Controller.Renewal.Complete.{path-FileIs}

-- No backup is below the directory of the certificates or that of the manifests.
pub record KeepsBackups (spec : CertRotationConfigSpec) : Type 0 where
  pub no_cert : (p : FilePath) → is_prefix spec.pki_dir (spec.backup_dir ++ p) ≡ false
  pub no_manifest : (p : FilePath) → is_prefix spec.manifests_dir (spec.backup_dir ++ p) ≡ false

-- The renewal after its backup.
abbrev after_backup :
    Env → String → CertRotationConfigSpec → DetectionResult → Backup → Exec (Unit {0})
after_backup env node spec detected b =
    wrap "persisting backup path to status" (set_node_backup_path env node b.backup_path)
    >> (if spec.dry_run then pure tt else renew_and_restart env node spec detected)

after_backup-FileIs :
    (env : Env) (node : String) (spec : CertRotationConfigSpec) (detected : DetectionResult)
    (b : Backup) {q : FilePath} {x : Option File}
    → is_prefix spec.pki_dir q ≡ false
    → is_prefix spec.manifests_dir q ≡ false
    → Keeps (FileIs q x) (after_backup env node spec detected b)
after_backup-FileIs env node spec detected b no_cert no_manifest = search (
  file_rules,
  path-FileIs env node spec b.backup_path,
  renew_and_restart-FileIs env node spec no_cert no_manifest detected,
)

wrap-done :
    {A : Type 0} (s : String) (m : Exec A) (w : World) {a : A} {w1 : World}
    → m w ≡ (ok a, w1)
    → wrap s m w ≡ (ok a, w1)
unfolding wrap
wrap-done s m w done = rw done refl

backup-kept :
    (env : Env) (node : String) (spec : CertRotationConfigSpec) (detected : DetectionResult)
    (w : World) {b : Backup} {w1 : World}
    → KeepsBackups spec
    → create env (backup_manager spec) node w ≡ (ok b, w1)
    → (p : FilePath)
    → (run_renewal env node spec detected w).1.files (b.backup_path ++ p)
      ≡ w1.files (b.backup_path ++ p)
unfolding run_renewal
backup-kept env node spec detected w {b} {w1} keeps created p =
    let (stamp, at_path) = create-path env (backup_manager spec) node w created in
    let below : b.backup_path ++ p ≡ spec.backup_dir ++ ((node ∷ stamp ∷ []) ++ p) =
      ap (λ d. d ++ p) at_path ∙ append_assoc spec.backup_dir (node ∷ stamp ∷ []) p in
    let goes_on : run_renewal env node spec detected w ≡ after_backup env node spec detected b w1 =
      >>=-done _ _ w (wrap-done "cert backup failed" _ w created) refl in
    ap (λ r. r.1.files (b.backup_path ++ p)) goes_on
    ∙ ((after_backup-FileIs env node spec detected b
          (ap (is_prefix spec.pki_dir) below ∙ keeps.no_cert _)
          (ap (is_prefix spec.manifests_dir) below ∙ keeps.no_manifest _)).at
        w1 (record { same = refl })).same

-- However a renewal ends once it has made its backup, also with an error after some certificates
-- were written, a restoration from this backup gives each certificate or key file that was backed
-- up the content that it had before the renewal. The conditions: backups are not below the
-- directories of the certificates and of the manifests, no kubeconfig is restored to the file's
-- path, and the restoration returns without an error.
pub restore-run_renewal :
    (env : Env) (node : String) (spec : CertRotationConfigSpec) (detected : DetectionResult)
    (rel : FilePath) (w : World) {f : File} {b : Backup} {w1 w3 : World}
    → KeepsBackups spec
    → All (λ file. spec.kubeconfig_dir ++ file ≢ spec.pki_dir ++ rel) kubeconfig_files
    → contains rel pki_files ≡ true
    → w.files (spec.pki_dir ++ rel) ≡ some f
    → create env (backup_manager spec) node w ≡ (ok b, w1)
    → restore env (backup_manager spec) b.backup_path (run_renewal env node spec detected w).1
      ≡ (ok tt, w3)
    → (g : File) × (w3.files (spec.pki_dir ++ rel) ≡ some g) × (g.content ≡ f.content)
restore-run_renewal env node spec detected rel w keeps others listed there created restored =
    restore-create env (backup_manager spec) node rel w (run_renewal env node spec detected w).1
      (λ p q e. append-ne spec.pki_dir q (spec.backup_dir ++ p) (keeps.no_cert p) (sym e)) others
      listed there created (backup-kept env node spec detected w keeps created) restored
