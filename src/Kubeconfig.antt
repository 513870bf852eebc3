-- ===== src/Kubeconfig.antt =====
-- Renewal of the client certificates that kubeconfig files embed (pkg/kubeconfig/kubeconfig.go).
pub mod Frame
pub mod Issued
pub mod Renewed
use cert_rotator.Base.{
  ℕ, String, ◌<>◌, Bool, true, false, List, [], ◌∷◌, ◌++◌, ◌⊎◌, inl, inr, if◌then◌else◌,
}
use cert_rotator.Base.Int.{◌+ℤ◌, ◌-ℤ◌}
use cert_rotator.Base.Dict.{Dict}
use cert_rotator.Api.{Time, FilePath}
use cert_rotator.Host.{
  Env, Bytes, Error, not_exist, message, wrapped, path_text, Certificate, PrivateKey, Exec, pure,
  fail, wrap, attempt, lift, now, next_call, range_map, stat, read_file, write_file, ◌>>=◌, ◌>>◌,
}
use cert_rotator.Generator.{
  cert_validity, ten_minutes, generate_key, load_ca_cert, load_ca_key, encode_cert_pem,
  encode_key_pem,
}
use cert_rotator.Signer.{sign}

pub record ClusterInfo : Type 0 where
  pub server : String
  pub certificate_authority_data : String

pub record Cluster : Type 0 where
  pub name : String
  pub cluster : ClusterInfo

pub record UserInfo : Type 0 where
  pub client_certificate_data : String
  pub client_key_data : String

pub record User : Type 0 where
  pub name : String
  pub user : UserInfo

pub record ContextInfo : Type 0 where
  pub cluster : String
  pub user : String

pub record Context : Type 0 where
  pub name : String
  pub context : ContextInfo

pub record KubeconfigFile : Type 0 where
  pub api_version : String
  pub kind : String
  pub clusters : List Cluster
  pub users : List User
  pub contexts : List Context
  pub current_context : String

-- `yaml.Unmarshal` and `yaml.Marshal` at `kubeconfigFile`, and base64. Which keys of a file the fields
-- are read from, and which are written, is the library's: the one that is imported goes by the names
-- of the fields and skips the `yaml` tags, so it finds none of the keys with a dash.
pub record Codec : Type 0 where
  pub unmarshal : Bytes → Error ⊎ KubeconfigFile
  pub marshal : KubeconfigFile → Error ⊎ Bytes
  pub base64_encode : Bytes → String

abbrev pub identities : Dict String
identities =
    ("admin.conf", "kubernetes-admin")
    ∷ ("controller-manager.conf", "system:kube-controller-manager")
    ∷ ("scheduler.conf", "system:kube-scheduler")
    ∷ ("super-admin.conf", "kubernetes-super-admin")
    ∷ []

pub record Manager : Type 0 where
  pub kubeconfig_dir : FilePath
  pub pki_dir : FilePath
  pub dry_run : Bool

-- The key usages are digital signature and key encipherment, and client authentication.
abbrev pub client_cert_template : String → ℕ → Time → Time → Certificate
client_cert_template common_name serial before after = record {
  serial_number = serial;
  common_name = common_name;
  organization = "system:masters" ∷ [];
  organizational_unit = [];
  country = [];
  not_before = before -ℤ ten_minutes;
  not_after = after +ℤ cert_validity;
  dns_names = [];
  ip_addresses = [];
  uris = [];
  key_usage = 5;
  ext_key_usage = 2 ∷ [];
  is_ca = false;
  basic_constraints_valid = true;
  email_addresses = [];
  extensions = [];
  extra_extensions = [];
}

unfoldable pub build_client_cert_template : Env → String → Exec Certificate
build_client_cert_template env common_name = do
  n ← next_call
  serial ← wrap "generating serial" (lift (env.random_int n))
  before ← now env
  after ← now env
  pure (client_cert_template common_name serial before after)

unfoldable pub generate_client_cert : Env → String → Certificate → PrivateKey → Exec (Bytes × Bytes)
generate_client_cert env common_name ca_cert ca_key = do
  key ← wrap "generating key" (generate_key env)
  template ← build_client_cert_template env common_name
  der ← sign env template ca_cert ca_key key
  pure (encode_cert_pem env der, encode_key_pem env key)

abbrev pub embed : Codec → Bytes × Bytes → User → User
embed codec (cert, key) u = record u {
  user = record {
    client_certificate_data = codec.base64_encode cert;
    client_key_data = codec.base64_encode key;
  };
}

unfoldable pub write_updated : Env → Codec → String → FilePath → KubeconfigFile → Exec (Unit {0})
write_updated env codec filename path kc = do
  updated ← wrap ("marshalling updated " <> filename) (lift (codec.marshal kc))
  info ← wrap ("statting " <> path_text path) (stat env path)
  wrap ("writing updated " <> filename) (write_file env path updated info.mode)

unfoldable pub finish : Env → Codec → Manager → String → KubeconfigFile → Exec (Unit {0})
finish env codec m filename kc =
    if m.dry_run
    then pure tt
    else write_updated env codec filename (m.kubeconfig_dir ++ (filename ∷ [])) kc

unfoldable pub renew_users :
    Env → Codec → Manager → String → String → KubeconfigFile → List User → Exec (Unit {0})
renew_users env codec m filename common_name kc [] =
    fail (message ("no users found in " <> filename))
renew_users env codec m filename common_name kc (u ∷ us) = do
  ca_cert ← wrap "loading CA cert" (load_ca_cert env (m.pki_dir ++ ("ca.crt" ∷ [])))
  ca_key ← wrap "loading CA key" (load_ca_key env (m.pki_dir ++ ("ca.key" ∷ [])))
  pems ←
      wrap ("generating client cert for " <> common_name)
        (generate_client_cert env common_name ca_cert ca_key)
  finish env codec m filename (record kc { users = embed codec pems u ∷ us })

-- A file that does not exist is skipped.
unfoldable pub renew_read :
    Env → Codec → Manager → String → String → Error ⊎ Bytes → Exec (Unit {0})
renew_read env codec m filename common_name (inl (not_exist s)) = pure tt
renew_read env codec m filename common_name (inl e) = fail (wrapped ("reading " <> filename) e)
renew_read env codec m filename common_name (inr bytes) = do
  kc ← wrap ("parsing " <> filename) (lift (codec.unmarshal bytes))
  renew_users env codec m filename common_name kc kc.users

unfoldable pub renew : Env → Codec → Manager → String → String → Exec (Unit {0})
renew env codec m filename common_name = do
  r ← attempt (read_file env (m.kubeconfig_dir ++ (filename ∷ [])))
  renew_read env codec m filename common_name r

unfoldable pub renew_each : Env → Codec → Manager → List (String × String) → Exec (Unit {0})
renew_each env codec m [] = pure tt
renew_each env codec m ((filename, common_name) ∷ rest) = do
  wrap ("renewing kubeconfig " <> filename) (renew env codec m filename common_name)
  renew_each env codec m rest

-- The keys are gathered in an order of their own, for the log, before the loop.
unfoldable pub renew_all : Env → Codec → Manager → Exec (Unit {0})
renew_all env codec m = do
  _ ← range_map env identities
  entries ← range_map env identities
  renew_each env codec m entries
