-- ===== src/Backup/Frame.antt =====
-- A backup changes no file outside its directory, and a restoration none outside the two that it
-- restores to.
use cert_rotator.Base.{arith, String, false, List, [], ◌∷◌, ◌≡◌, ◌≢◌, ◌++◌, Option, ◌⊎◌, inl, inr}
use cert_rotator.Api.{FilePath}
use cert_rotator.Host.{Env, Error, not_exist, message, wrapped, File, is_prefix}
use cert_rotator.Host.Keeps.{Keeps, Keeps-bind}
use cert_rotator.Host.Frame.{FileIs, file_rules}
use cert_rotator.Backup.{
  Manager, copy_file, skip_missing, copy_optional, copy_pki, copy_kubeconfigs, copy_to_backup,
  create, restore,
}

-- What is below `d ++ p` is below `d`.
pub is_prefix-append : (d p q : FilePath) → is_prefix d q ≡ false → is_prefix (d ++ p) q ≡ false
is_prefix-append [] p q h = cc
is_prefix-append (c ∷ d) p [] h = h
is_prefix-append (c ∷ d) p (e ∷ q) h = ground (arith, is_prefix-append d p q)

module _ {q : FilePath} {x : Option File} (env : Env) where
  copy_file-FileIs : (src dst : FilePath) → dst ≢ q → Keeps (FileIs q x) (copy_file env src dst)
  unfolding copy_file
  copy_file-FileIs src dst ne = search file_rules

  skip_missing-FileIs : (s : String) (r : Error ⊎ Unit {0}) → Keeps (FileIs q x) (skip_missing s r)
  unfolding skip_missing
  skip_missing-FileIs s (inl (not_exist t)) = search file_rules
  skip_missing-FileIs s (inl (message t)) = search file_rules
  skip_missing-FileIs s (inl (wrapped t e)) = search file_rules
  skip_missing-FileIs s (inr u) = search file_rules

  pub copy_optional-FileIs :
      (s : String) (src dst : FilePath) → dst ≢ q → Keeps (FileIs q x) (copy_optional env s src dst)
  unfolding copy_optional
  copy_optional-FileIs s src dst ne = search (file_rules, copy_file-FileIs, skip_missing-FileIs)

  pub copy_pki-FileIs :
      (a b : String) (src dst : FilePath) (rels : List FilePath)
      → is_prefix dst q ≡ false
      → Keeps (FileIs q x) (copy_pki env a b src dst rels)
  unfolding copy_pki
  copy_pki-FileIs a b src dst [] out = search file_rules
  copy_pki-FileIs a b src dst (rel ∷ rels) out = Keeps-bind _ _ (search file_rules) λ _.
      Keeps-bind _ _ (search (file_rules, copy_optional-FileIs))
        λ _. copy_pki-FileIs a b src dst rels out

  pub copy_kubeconfigs-FileIs :
      (b : String) (src dst : FilePath) (rels : List FilePath)
      → is_prefix dst q ≡ false
      → Keeps (FileIs q x) (copy_kubeconfigs env b src dst rels)
  unfolding copy_kubeconfigs
  copy_kubeconfigs-FileIs b src dst [] out = search file_rules
  copy_kubeconfigs-FileIs b src dst (rel ∷ rels) out =
      Keeps-bind _ _ (search (file_rules, copy_optional-FileIs))
        λ _. copy_kubeconfigs-FileIs b src dst rels out

  copy_to_backup-FileIs :
      (m : Manager) (path : FilePath)
      → is_prefix path q ≡ false
      → Keeps (FileIs q x) (copy_to_backup env m path)
  unfolding copy_to_backup
  copy_to_backup-FileIs m path out =
      search (file_rules, copy_pki-FileIs, copy_kubeconfigs-FileIs, is_prefix-append)

  -- A backup, however it ends, changes no file outside the backup directory.
  pub create-FileIs :
      (m : Manager) (node : String)
      → is_prefix m.backup_dir q ≡ false
      → Keeps (FileIs q x) (create env m node)
  unfolding create
  create-FileIs m node out = search (file_rules, copy_to_backup-FileIs, is_prefix-append)

  -- A restoration, however it ends, changes no file outside the two directories restored to.
  pub restore-FileIs :
      (m : Manager) (path : FilePath)
      → is_prefix m.pki_dir q ≡ false
      → is_prefix m.kubeconfig_dir q ≡ false
      → Keeps (FileIs q x) (restore env m path)
  unfolding restore
  restore-FileIs m path out_pki out_conf =
      search (file_rules, copy_pki-FileIs, copy_kubeconfigs-FileIs)
