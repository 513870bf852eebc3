-- ===== src/Rollback/Restored.antt =====
-- What a rollback brings back.
use cert_rotator.Base.{
  String, [], ◌∷◌, ◌++◌, Bool, true, false, some, ◌⊎◌, inl, inr, ◌≡◌, ◌≢◌, refl, ap, sym, ◌∙◌,
  arith, path_eq, string_eq, contains, All, if◌then◌else◌,
}
use cert_rotator.Base.Int.{ℤ, pos}
use cert_rotator.Base.Dict.{lookup}
use cert_rotator.Api.{FilePath}
use cert_rotator.Host.{
  Env, World, Exec, Error, File, ok, pure, attempt, now, next_call, is_prefix, ◌>>=◌,
}
use cert_rotator.Host.Frame.{FileIs}
use cert_rotator.Host.Inversion.{>>=-eq-ok, wrap-eq-ok, Keeps-eq}
use cert_rotator.Host.Written.{attempt-inr}
use cert_rotator.Backup.{pki_files, kubeconfig_files}
use cert_rotator.Backup.Copy.{Holds}
use cert_rotator.Backup.RoundTrip.{restore_copies}
use cert_rotator.HealthCheck.Frame.{check_all_with_retry-FileIs}
use cert_rotator.PodRestart.Frame.{restart_all-FileIs}
use cert_rotator.State.{State, NodeState, entries}
use cert_rotator.Rollback.{
  Manager, RollbackResult, failed_result, restored_result, no_backup, rollback_to, rollback_known,
  rollback_node, restore_node,
}

otherwise :
    {A : Type 0} (test : Bool) (here there : A)
    → test ≡ false
    → (if test then here else there) ≡ there
otherwise false here there is_false = refl
otherwise true here there is_false = cc

-- Only the result of three steps that went well is a success.
restored_result-success :
    (env : Env) (node : String) (r : Error ⊎ Unit {0}) (w : World) {result : RollbackResult}
    {w' : World}
    → restored_result env node r w ≡ (ok result, w')
    → result.success ≡ true
    → (r ≡ inr tt) × (w'.files ≡ w.files)
unfolding restored_result failed_result pure now next_call ◌>>=◌
restored_result-success env node (inl e) w done success = ground arith
restored_result-success env node (inr _) w done success = (refl, ground arith)

rollback_known-success :
    (env : Env) (m : Manager) (node : String) (ns : NodeState) (timeout : ℤ) (w : World)
    {result : RollbackResult} {w' : World}
    → rollback_known env m node (some ns) timeout w ≡ (ok result, w')
    → result.success ≡ true
    → rollback_to env m node ns.backup_path timeout w ≡ (ok result, w')
unfolding rollback_known no_backup failed_result pure
rollback_known-success env m node ns timeout w done success = ground arith

rollback_to-success :
    (env : Env) (m : Manager) (node : String) (path : FilePath) (timeout : ℤ) (w : World)
    {result : RollbackResult} {w' : World}
    → m.dry_run ≡ false
    → rollback_to env m node path timeout w ≡ (ok result, w')
    → result.success ≡ true
    → (w1 : World) × (restore_node env m node path timeout w ≡ (ok tt, w1)) × (w'.files ≡ w1.files)
unfolding rollback_to
rollback_to-success env m node path timeout w {result} {w'} real done success =
    let tried : (attempt (restore_node env m node path timeout) >>= restored_result env node) w
        ≡ (ok result, w') =
      ap (λ (k : Exec RollbackResult). k w) (sym (otherwise m.dry_run _ _ real)) ∙ done in
    let (r, w1, e1, d1) = >>=-eq-ok _ _ w tried in
    let (is_ok, kept) = restored_result-success env node r w1 d1 success in
    (w1, attempt-inr _ w (e1 ∙ ap (λ v. (ok v, w1)) is_ok), kept)

restore_node-restores :
    (env : Env) (m : Manager) (node : String) (path rel : FilePath) (timeout : ℤ) (w : World)
    {f : File} {w' : World}
    → ((p q : FilePath) → path ++ p ≢ m.backup_mgr.pki_dir ++ q)
    → All
        (λ file. m.backup_mgr.kubeconfig_dir ++ file ≢ m.backup_mgr.pki_dir ++ rel)
        kubeconfig_files
    → is_prefix m.restart_mgr.manifest_dir (m.backup_mgr.pki_dir ++ rel) ≡ false
    → contains rel pki_files ≡ true
    → w.files ((path ++ ("pki" ∷ [])) ++ rel) ≡ some f
    → restore_node env m node path timeout w ≡ (ok tt, w')
    → Holds f.content (m.backup_mgr.pki_dir ++ rel) w'
unfolding restore_node
restore_node-restores env m node path rel timeout w apart others outside listed there done =
    let (_, w1, e1, d1) = >>=-eq-ok _ _ w done in
    let (g, is_g, same) =
      restore_copies env m.backup_mgr path rel w apart others listed there (wrap-eq-ok _ _ w e1) in
    let (_, w2, e2, d2) = >>=-eq-ok _ _ w1 d1 in
    let restarted =
      Keeps-eq (FileIs (m.backup_mgr.pki_dir ++ rel) (some g)) _ w1
        (restart_all-FileIs env m.restart_mgr (λ _. outside)) (record { same = is_g })
        (wrap-eq-ok _ _ w1 e2) in
    let checked =
      Keeps-eq (FileIs (m.backup_mgr.pki_dir ++ rel) (some g)) _ w2
        (check_all_with_retry-FileIs env
          (record { node = node; timeout = timeout; dry_run = m.dry_run }) (pos 10) 15)
        restarted (wrap-eq-ok _ _ w2 d2) in
    (g, checked.same, same)

-- If the rollback of a node is reported as a success and is no dry run, each certificate or key
-- file that the node's backup holds has the content of the backup again. The conditions: the
-- state has a backup for the node, the backup does not overlap with the certificate directory,
-- no kubeconfig is restored to the file's path, and the file is not below the manifest directory.
pub rollback_node-restores :
    (env : Env) (m : Manager) (node : String) (s : State) (ns : NodeState) (rel : FilePath)
    (timeout : ℤ) (w w' : World) {f : File} {result : RollbackResult}
    → m.dry_run ≡ false
    → lookup node (entries s) ≡ some ns
    → ((p q : FilePath) → ns.backup_path ++ p ≢ m.backup_mgr.pki_dir ++ q)
    → All
        (λ file. m.backup_mgr.kubeconfig_dir ++ file ≢ m.backup_mgr.pki_dir ++ rel)
        kubeconfig_files
    → is_prefix m.restart_mgr.manifest_dir (m.backup_mgr.pki_dir ++ rel) ≡ false
    → contains rel pki_files ≡ true
    → w.files ((ns.backup_path ++ ("pki" ∷ [])) ++ rel) ≡ some f
    → rollback_node env m node (some s) timeout w ≡ (ok result, w')
    → result.success ≡ true
    → Holds f.content (m.backup_mgr.pki_dir ++ rel) w'
unfolding rollback_node
rollback_node-restores env m node s ns rel timeout w w' {f} {result} real known apart others outside
      listed there done success =
    let found : rollback_known env m node (some ns) timeout w ≡ (ok result, w') =
      rw known at done in
    let (w1, restored, kept) =
      rollback_to-success env m node ns.backup_path timeout w real
        (rollback_known-success env m node ns timeout w found success) success in
    let (g, is_g, same) =
      restore_node-restores env m node ns.backup_path rel timeout w apart others outside listed
        there restored in
    (g, ap (λ fs. fs (m.backup_mgr.pki_dir ++ rel)) kept ∙ is_g, same)
