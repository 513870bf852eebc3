-- ===== src/Backup.antt =====
-- Backups of the certificate files, and their restoration (pkg/backup/backup.go).
pub mod Frame
pub mod Copy
pub mod Loops
pub mod RoundTrip
pub mod Cleanup
use cert_rotator.Base.{String, ◌<>◌, List, [], ◌∷◌, ◌++◌, ◌⊎◌, inl, inr}
use cert_rotator.Api.{Time, FilePath}
use cert_rotator.Host.{
  Env, Error, not_exist, wrapped, rel_text, Exec, pure, fail, wrap, attempt, now, dir, stat,
  mkdir_all, open_truncated, io_copy, ◌>>=◌, ◌>>◌,
}

abbrev pub pki_files : List FilePath
pki_files =
    ("ca.crt" ∷ [])
    ∷ ("ca.key" ∷ [])
    ∷ ("apiserver.crt" ∷ [])
    ∷ ("apiserver.key" ∷ [])
    ∷ ("apiserver-etcd-client.crt" ∷ [])
    ∷ ("apiserver-etcd-client.key" ∷ [])
    ∷ ("apiserver-kubelet-client.crt" ∷ [])
    ∷ ("apiserver-kubelet-client.key" ∷ [])
    ∷ ("front-proxy-ca.crt" ∷ [])
    ∷ ("front-proxy-ca.key" ∷ [])
    ∷ ("front-proxy-client.crt" ∷ [])
    ∷ ("front-proxy-client.key" ∷ [])
    ∷ ("etcd" ∷ "ca.crt" ∷ [])
    ∷ ("etcd" ∷ "ca.key" ∷ [])
    ∷ ("etcd" ∷ "server.crt" ∷ [])
    ∷ ("etcd" ∷ "server.key" ∷ [])
    ∷ ("etcd" ∷ "peer.crt" ∷ [])
    ∷ ("etcd" ∷ "peer.key" ∷ [])
    ∷ ("etcd" ∷ "healthcheck-client.crt" ∷ [])
    ∷ ("etcd" ∷ "healthcheck-client.key" ∷ [])
    ∷ []

abbrev pub kubeconfig_files : List FilePath
kubeconfig_files =
    ("admin.conf" ∷ [])
    ∷ ("controller-manager.conf" ∷ [])
    ∷ ("scheduler.conf" ∷ [])
    ∷ ("super-admin.conf" ∷ [])
    ∷ []

pub record Backup : Type 0 where
  pub node : String
  pub backup_path : FilePath
  pub created_at : Time

pub record Manager : Type 0 where
  pub backup_dir : FilePath
  pub pki_dir : FilePath
  pub kubeconfig_dir : FilePath

unfoldable pub copy_file : Env → FilePath → FilePath → Exec (Unit {0})
copy_file env src dst = do
  opened ← stat env src
  info ← stat env src
  open_truncated env dst info.mode
  io_copy env dst src

-- What a loop does about the error of a copy: it goes on if the file is not there.
unfoldable pub skip_missing : String → Error ⊎ Unit {0} → Exec (Unit {0})
skip_missing text (inl (not_exist s)) = pure tt
skip_missing text (inl e) = fail (wrapped text e)
skip_missing text (inr _) = pure tt

unfoldable pub copy_optional : Env → String → FilePath → FilePath → Exec (Unit {0})
copy_optional env text src dst = do r ← attempt (copy_file env src dst); skip_missing text r

-- The loops over `pkiFiles`, from one directory to another; the texts are those of the errors.
unfoldable pub copy_pki :
    Env → String → String → FilePath → FilePath → List FilePath → Exec (Unit {0})
copy_pki env subdir text src dst [] = pure tt
copy_pki env subdir text src dst (rel ∷ rels) = do
  wrap (subdir <> rel_text rel) (mkdir_all env (dir (dst ++ rel)))
  copy_optional env (text <> rel_text rel) (src ++ rel) (dst ++ rel)
  copy_pki env subdir text src dst rels

-- The loops over `kubeconfigFiles`.
unfoldable pub copy_kubeconfigs :
    Env → String → FilePath → FilePath → List FilePath → Exec (Unit {0})
copy_kubeconfigs env text src dst [] = pure tt
copy_kubeconfigs env text src dst (file ∷ files) = do
  copy_optional env (text <> rel_text file) (src ++ file) (dst ++ file)
  copy_kubeconfigs env text src dst files

unfoldable pub copy_to_backup : Env → Manager → FilePath → Exec (Unit {0})
copy_to_backup env m path = do
  let pki = path ++ ("pki" ∷ [])
  let kubeconfigs = path ++ ("kubeconfigs" ∷ [])
  wrap "creating pki backup dir" (mkdir_all env pki)
  wrap "creating kubeconfig backup dir" (mkdir_all env kubeconfigs)
  copy_pki env "creating subdir for " "backing up " m.pki_dir pki pki_files
  copy_kubeconfigs env "backing up kubeconfig " m.kubeconfig_dir kubeconfigs kubeconfig_files

unfoldable pub create : Env → Manager → String → Exec Backup
create env m node = do
  t ← now env
  let path = m.backup_dir ++ (node ∷ env.format "2006-01-02T15-04-05Z" t ∷ [])
  copy_to_backup env m path
  created ← now env
  pure (record { node = node; backup_path = path; created_at = created })

unfoldable pub restore : Env → Manager → FilePath → Exec (Unit {0})
restore env m path = do
  copy_pki env "creating pki subdir for restore " "restoring " (path ++ ("pki" ∷ [])) m.pki_dir
      pki_files
  copy_kubeconfigs env "restoring kubeconfig " (path ++ ("kubeconfigs" ∷ [])) m.kubeconfig_dir
      kubeconfig_files
