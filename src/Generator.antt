-- ===== src/Generator.antt =====
-- Keys, templates and PEM files of certificates (pkg/generator/generator.go).
pub mod Frame
pub mod Loaded
use cert_rotator.Base.{
  ℕ, String, ◌<>◌, List, [], ◌∷◌, Option, none, some, ◌⊎◌, inl, inr, contains, string_eq,
  if◌then◌else◌,
}
use cert_rotator.Base.Int.{ℤ, pos, ◌+ℤ◌, ◌-ℤ◌}
use cert_rotator.Api.{Time, FilePath}
use cert_rotator.Host.{
  Env, Bytes, Error, message, wrapped, path_text, Certificate, PrivateKey, Exec, pure, fail, wrap,
  lift, now, next_call, read_file, ◌>>=◌,
}

-- 365 days, and ten minutes, in nanoseconds.
abbrev pub cert_validity : ℤ
cert_validity = pos 31536000000000000

abbrev pub ten_minutes : ℤ
ten_minutes = pos 600000000000

unfoldable pub generate_key : Env → Exec PrivateKey
generate_key env = next_call >>= λ n. wrap "generating RSA key" (lift (env.generate_key n))

abbrev handled : List String
handled = "2.5.29.17" ∷ "2.5.29.15" ∷ "2.5.29.37" ∷ "2.5.29.19" ∷ "2.5.29.14" ∷ "2.5.29.35" ∷ []

unfoldable pub filter_each : List (String × Bytes) → List (String × Bytes)
filter_each [] = []
filter_each ((id, value) ∷ exts) =
    let rest = filter_each exts in if contains id handled then rest else (id, value) ∷ rest

unfoldable pub filter_extensions : Certificate → List (String × Bytes)
filter_extensions cert = filter_each cert.extensions

abbrev pub template : Certificate → ℕ → Time → Certificate
template existing serial t = record {
  serial_number = serial;
  common_name = existing.common_name;
  organization = existing.organization;
  organizational_unit = existing.organizational_unit;
  country = existing.country;
  not_before = t -ℤ ten_minutes;
  not_after = t +ℤ cert_validity;
  dns_names = existing.dns_names;
  ip_addresses = existing.ip_addresses;
  uris = existing.uris;
  key_usage = existing.key_usage;
  ext_key_usage = existing.ext_key_usage;
  is_ca = existing.is_ca;
  basic_constraints_valid = existing.basic_constraints_valid;
  email_addresses = [];
  extensions = [];
  extra_extensions = filter_extensions existing;
}

unfoldable pub build_template : Env → Certificate → Exec Certificate
build_template env existing = do
  n ← next_call
  serial ← wrap "generating serial number" (lift (env.random_int n))
  t ← now env
  pure (template existing serial t)

unfoldable pub read_pem_file : Env → FilePath → Exec Bytes
read_pem_file env path = wrap ("reading file " <> path_text path) (read_file env path)

abbrev block : String → Option Bytes → Exec Bytes
block text none = fail (message text)
block text (some der) = pure der

unfoldable pub load_existing_cert : Env → FilePath → Exec Certificate
load_existing_cert env path = do
  bytes ← wrap ("reading cert " <> path_text path) (read_pem_file env path)
  der ← block ("no PEM block in " <> path_text path) (env.pem_decode bytes)
  wrap ("parsing cert " <> path_text path) (lift (env.parse_certificate der))

unfoldable pub load_ca_cert : Env → FilePath → Exec Certificate
load_ca_cert = load_existing_cert

unfoldable pub encode_key_pem : Env → PrivateKey → Bytes
encode_key_pem env key = env.pem_encode "RSA PRIVATE KEY" key.der

unfoldable pub encode_cert_pem : Env → Bytes → Bytes
encode_cert_pem env der = env.pem_encode "CERTIFICATE" der

-- PKCS#8, which is tried after the error `e` of PKCS#1.
unfoldable pub rsa_key : FilePath → Error → Error ⊎ Option PrivateKey → Error ⊎ PrivateKey
rsa_key path e (inl e2) =
    inl (wrapped ("parsing CA key " <> path_text path <> " (tried PKCS1 and PKCS8)") e)
rsa_key path e (inr none) = inl (message ("CA key " <> path_text path <> " is not RSA"))
rsa_key path e (inr (some key)) = inr key

unfoldable pub parse_ca_key : Env → FilePath → Bytes → Error ⊎ PrivateKey → Error ⊎ PrivateKey
parse_ca_key env path der (inl e) = rsa_key path e (env.parse_pkcs8_private_key der)
parse_ca_key env path der (inr key) = inr key

unfoldable pub load_ca_key : Env → FilePath → Exec PrivateKey
load_ca_key env path = do
  bytes ← wrap ("reading CA key " <> path_text path) (read_pem_file env path)
  der ← block ("no PEM block in CA key " <> path_text path) (env.pem_decode bytes)
  lift (parse_ca_key env path der (env.parse_pkcs1_private_key der))
