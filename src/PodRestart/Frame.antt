-- ===== src/PodRestart/Frame.antt =====
-- A restart changes no file outside the manifest directory, and in a dry run no file at all.
use cert_rotator.Base.{String, false, List, [], ◌∷◌, ◌≡◌, ◌≢◌, Option, none, some}
use cert_rotator.Api.{FilePath}
use cert_rotator.Host.{Env, Bytes, File, Fields, is_prefix}
use cert_rotator.Host.Keeps.{Keeps, Keeps-bind, Keeps-if, Keeps-pure}
use cert_rotator.Host.Frame.{FileIs, file_rules, append-ne}
use cert_rotator.PodRestart.{
  Manager, restart_order, annotated, inject_restart_annotation, find_manifest, rewrite_manifest,
  restart, restart_each, restart_all,
}

module _ {q : FilePath} {x : Option File} (env : Env) where
  annotated-FileIs : (m : Option Fields) → Keeps (FileIs q x) (annotated env m)
  unfolding annotated
  annotated-FileIs none = search file_rules
  annotated-FileIs (some m) = search file_rules

  pub inject-FileIs : (bytes : Bytes) → Keeps (FileIs q x) (inject_restart_annotation env bytes)
  unfolding inject_restart_annotation
  inject-FileIs bytes = search (file_rules, annotated-FileIs)

  pub find_manifest-FileIs :
      (m : Manager) (name : String) → Keeps (FileIs q x) (find_manifest env m name)
  unfolding find_manifest
  find_manifest-FileIs m name = search file_rules depth 8

  rewrite_manifest-FileIs :
      (name : String) (path : FilePath)
      → path ≢ q
      → Keeps (FileIs q x) (rewrite_manifest env name path)
  unfolding rewrite_manifest
  rewrite_manifest-FileIs name path ne = search (file_rules, inject-FileIs) depth 8

  restart-FileIs :
      (m : Manager) (name : String)
      → (m.dry_run ≡ false → is_prefix m.manifest_dir q ≡ false)
      → Keeps (FileIs q x) (restart env m name)
  unfolding restart
  restart-FileIs m name out = Keeps-bind _ _ (find_manifest-FileIs m name) λ suffix.
      Keeps-if m.dry_run _ _ (λ dry. Keeps-pure tt)
        λ real. rewrite_manifest-FileIs name _ (append-ne m.manifest_dir _ q (out real))

  restart_each-FileIs :
      (m : Manager) (names : List String)
      → (m.dry_run ≡ false → is_prefix m.manifest_dir q ≡ false)
      → Keeps (FileIs q x) (restart_each env m names)
  unfolding restart_each
  restart_each-FileIs m [] out = search file_rules
  restart_each-FileIs m (name ∷ names) out =
      Keeps-bind _ _ (search (file_rules, restart-FileIs))
        λ _. Keeps-bind _ _ (search file_rules) λ _. restart_each-FileIs m names out

  -- A restart, however it ends, changes no file outside the manifest directory, and in a dry run
  -- no file at all.
  pub restart_all-FileIs :
      (m : Manager)
      → (m.dry_run ≡ false → is_prefix m.manifest_dir q ≡ false)
      → Keeps (FileIs q x) (restart_all env m)
  unfolding restart_all
  restart_all-FileIs m out = restart_each-FileIs m restart_order out
