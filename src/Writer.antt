-- ===== src/Writer.antt =====
-- Writing certificates and keys below the PKI directory (pkg/writer/writer.go).
pub mod Contents
pub mod Frame
pub mod Owner
pub mod Verified
use cert_rotator.Base.{
  ℕ, String, ◌<>◌, Bool, List, [], ◌∷◌, ◌++◌, Option, none, some, if◌then◌else◌,
}
use cert_rotator.Base.Dict.{Dict, lookup}
use cert_rotator.Api.{FilePath}
use cert_rotator.Host.{
  Env, Bytes, message, path_text, Exec, pure, fail, wrap, range_map, stat, mkdir_all, write_file,
  dir, ◌>>=◌, ◌>>◌,
}

pub record Writer : Type 0 where
  pub pki_dir : FilePath
  pub dry_run : Bool

unfoldable pub write_below : Env → Writer → String → FilePath → Bytes → ℕ → Exec (Unit {0})
write_below env w what path bytes mode = if w.dry_run then pure tt else (do
  wrap ("creating dir for " <> path_text path) (mkdir_all env (dir path))
  wrap ("writing " <> what <> " " <> path_text path) (write_file env path bytes mode))

unfoldable pub write_cert : Env → Writer → FilePath → Bytes → Exec (Unit {0})
write_cert env w rel pem = write_below env w "cert" (w.pki_dir ++ rel) pem 0o644

unfoldable pub write_key : Env → Writer → FilePath → Bytes → Exec (Unit {0})
write_key env w rel pem = write_below env w "key" (w.pki_dir ++ rel) pem 0o600

unfoldable pub write_cert_key_pair :
    Env → Writer → FilePath → FilePath → Bytes → Bytes → Exec (Unit {0})
write_cert_key_pair env w rel_cert rel_key cert_pem key_pem = do
  write_cert env w rel_cert cert_pem
  write_key env w rel_key key_pem

abbrev pub cert_paths : Dict (FilePath × FilePath)
cert_paths =
    ("apiserver", ("apiserver.crt" ∷ [], "apiserver.key" ∷ []))
    ∷ (
      "apiserver-etcd-client",
      ("apiserver-etcd-client.crt" ∷ [], "apiserver-etcd-client.key" ∷ []),
    )
    ∷ (
      "apiserver-kubelet-client",
      ("apiserver-kubelet-client.crt" ∷ [], "apiserver-kubelet-client.key" ∷ []),
    )
    ∷ ("front-proxy-client", ("front-proxy-client.crt" ∷ [], "front-proxy-client.key" ∷ []))
    ∷ ("etcd-server", ("etcd" ∷ "server.crt" ∷ [], "etcd" ∷ "server.key" ∷ []))
    ∷ ("etcd-peer", ("etcd" ∷ "peer.crt" ∷ [], "etcd" ∷ "peer.key" ∷ []))
    ∷ (
      "etcd-healthcheck-client",
      ("etcd" ∷ "healthcheck-client.crt" ∷ [], "etcd" ∷ "healthcheck-client.key" ∷ []),
    )
    ∷ []

unfoldable pub write_pair :
    Env → Writer → String → Bytes × Bytes → Option (FilePath × FilePath) → Exec (Unit {0})
write_pair env w name pems none = fail (message ("unknown cert name: " <> name))
write_pair env w name (cert, key) (some (rel_cert, rel_key)) =
    wrap ("writing cert pair for " <> name) (write_cert_key_pair env w rel_cert rel_key cert key)

unfoldable pub write_each : Env → Writer → List (String × (Bytes × Bytes)) → Exec (Unit {0})
write_each env w [] = pure tt
write_each env w ((name, pems) ∷ pairs) = do
  write_pair env w name pems (lookup name cert_paths)
  write_each env w pairs

unfoldable pub write_all_certs : Env → Writer → Dict (Bytes × Bytes) → Exec (Unit {0})
write_all_certs env w pairs = do entries ← range_map env pairs; write_each env w entries

unfoldable pub expect_content : String → FilePath → Bytes → Exec (Unit {0})
expect_content name path [] =
    fail (message ("cert file empty after write [" <> name <> "]: " <> path_text path))
expect_content name path (_ ∷ _) = pure tt

unfoldable pub verify_file : Env → String → FilePath → Exec (Unit {0})
verify_file env name path = do
  info ← wrap ("cert file missing after write [" <> name <> "]: " <> path_text path) (stat env path)
  expect_content name path info.content

unfoldable pub verify_each : Env → Writer → List (String × (FilePath × FilePath)) → Exec (Unit {0})
verify_each env w [] = pure tt
verify_each env w ((name, (cert, key)) ∷ rest) = do
  verify_file env name (w.pki_dir ++ cert)
  verify_file env name (w.pki_dir ++ key)
  verify_each env w rest

unfoldable pub verify : Env → Writer → Exec (Unit {0})
verify env w = do entries ← range_map env cert_paths; verify_each env w entries
