-- ===== src/Detector.antt =====
-- Detection of expiring certificates (pkg/detector/detector.go).
pub mod Log
pub mod Classes
pub mod Shown
pub mod Kept
pub mod Coverage
pub mod Frame
use cert_rotator.Base.{
  String, ◌<>◌, Bool, not, List, [], ◌∷◌, ◌++◌, any, Option, none, some, ◌==◌, string_eq, Eq,
  if◌then◌else◌,
}
use cert_rotator.Base.Int.{ℤ, pos, negsuc, ◌-ℤ◌, leb_ℤ, ltb_ℤ}
use cert_rotator.Base.Dict.{Dict}
use cert_rotator.Api.{Time, FilePath}
use cert_rotator.Host.{
  Env, Bytes, Certificate, Error, not_exist, message, Value, str, seq, dict, Items, nil, cons,
  Fields, end, field, path_text, Exec, pure, fail, wrap, attempt, lift, now, range_map, read_file,
  ◌>>=◌,
}
use cert_rotator.Base.{◌⊎◌, inl, inr}

-- `unset` is the empty string before classification.
pub data CertStatus : Type 0 where
  ok approaching expired unset : CertStatus

CertStatus-discrete : Discrete CertStatus
CertStatus-discrete = hlevel

instance unfoldable pub cert_status_eq : Eq CertStatus
unfolding CertStatus-discrete
cert_status_eq = record { dec = CertStatus-discrete }

-- `string(c.Status)`
abbrev pub status_text : CertStatus → String
status_text ok = "OK"
status_text approaching = "APPROACHING"
status_text expired = "EXPIRED"
status_text unset = ""

pub record CertInfo : Type 0 where
  pub name : String
  pub path : FilePath
  pub expiry : Time
  pub residual_days : ℤ
  pub status : CertStatus
  pub subject : String
  pub dns_names : List String
  pub ip_addresses : List String

pub record DetectionResult : Type 0 where
  pub node : String
  pub certs : List CertInfo

abbrev pub cert_files : Dict FilePath
cert_files =
    ("apiserver", "apiserver.crt" ∷ [])
    ∷ ("apiserver-etcd-client", "apiserver-etcd-client.crt" ∷ [])
    ∷ ("apiserver-kubelet-client", "apiserver-kubelet-client.crt" ∷ [])
    ∷ ("front-proxy-client", "front-proxy-client.crt" ∷ [])
    ∷ ("etcd-server", "etcd" ∷ "server.crt" ∷ [])
    ∷ ("etcd-peer", "etcd" ∷ "peer.crt" ∷ [])
    ∷ ("etcd-healthcheck-client", "etcd" ∷ "healthcheck-client.crt" ∷ [])
    ∷ []

abbrev pub kubeconfig_certs : Dict FilePath
kubeconfig_certs =
    ("admin.conf", "admin.conf" ∷ [])
    ∷ ("controller-manager.conf", "controller-manager.conf" ∷ [])
    ∷ ("scheduler.conf", "scheduler.conf" ∷ [])
    ∷ ("super-admin.conf", "super-admin.conf" ∷ [])
    ∷ []

pub record Detector : Type 0 where
  pub pki_dir : FilePath
  pub kubeconfig_dir : FilePath
  pub threshold_days : ℤ

unfoldable pub classify : Detector → ℤ → CertStatus
classify d residual =
    if leb_ℤ residual (pos 0)
    then expired
    else if leb_ℤ residual d.threshold_days
    then approaching
    else ok

-- `t.Sub(u)`: a Duration is an int64 and saturates.
unfoldable pub sub_time : Time → Time → ℤ
sub_time t u =
    let d = t -ℤ u in
    if ltb_ℤ (pos 9223372036854775807) d
    then pos 9223372036854775807
    else if ltb_ℤ d (negsuc 9223372036854775807)
    then negsuc 9223372036854775807
    else d

-- `int(t.Sub(now).Hours() / 24)`
unfoldable pub residual_days_of : Env → Time → Time → ℤ
residual_days_of env expiry t =
    env.int_of_float (env.float_div (env.hours (sub_time expiry t)) (env.float_of_int (pos 24)))

unfoldable pub cert_info :
    Env → String → FilePath → Certificate → Time → List String → List String → CertInfo
cert_info env name path cert t dns ips = record {
  name = name;
  path = path;
  expiry = cert.not_after;
  residual_days = residual_days_of env cert.not_after t;
  status = unset;
  subject = cert.common_name;
  dns_names = dns;
  ip_addresses = ips;
}

unfoldable pub parse_block : Env → String → FilePath → Option Bytes → Exec CertInfo
parse_block env name path none = fail (message ("no PEM block found in " <> path_text path))
parse_block env name path (some der) = do
  cert ← wrap ("parsing certificate " <> path_text path) (lift (env.parse_certificate der))
  t ← now env
  pure (cert_info env name path cert t cert.dns_names cert.ip_addresses)

unfoldable pub parse_pem_cert : Env → String → FilePath → Bytes → Exec CertInfo
parse_pem_cert env name path bytes = parse_block env name path (env.pem_decode bytes)

unfoldable pub parse_cert : Env → String → FilePath → Exec CertInfo
parse_cert env name path = do bytes ← read_file env path; parse_pem_cert env name path bytes

-- `raw[key]`
unfoldable pub lookup_field : String → Fields → Option Value
lookup_field key end = none
lookup_field key (field k v fs) = if key == k then some v else lookup_field key fs

-- The first of the keys with a string that is not empty.
unfoldable pub client_cert_of : List String → Fields → String
client_cert_of [] info = ""
client_cert_of (key ∷ keys) info =
    let rest = client_cert_of keys info in
    elim (lookup_field key info) [ some (str s) ↦ if s == "" then rest else s | _ ↦ rest ]

abbrev cert_keys : List String
cert_keys = "client-certificate-data" ∷ "clientCertificateData" ∷ []

unfoldable pub scan_user : Value → String
scan_user (dict user) = elim (lookup_field "user" user) [
  | some (dict info) ↦ client_cert_of cert_keys info
  | _ ↦ ""
]
scan_user _ = ""

unfoldable pub scan_users : Items → String
scan_users nil = ""
scan_users (cons u us) =
    let rest = scan_users us in let s = scan_user u in if s == "" then rest else s

abbrev fields_of : Option Fields → Fields
fields_of none = end
fields_of (some fs) = fs

unfoldable pub extract_client_cert_data : Option Fields → FilePath → Error ⊎ String
extract_client_cert_data raw path = elim (lookup_field "users" (fields_of raw)) [
  | none ↦ inl (message ("no users field in kubeconfig " <> path_text path))
  | some (seq users) ↦ inr (scan_users users)
  | some _ ↦ inl (message ("users field is not a list in kubeconfig " <> path_text path))
]

-- The bytes that the base64 text holds, without the PEM layer that they may have.
abbrev der_of : Env → Bytes → Bytes
der_of env decoded = elim (env.pem_decode decoded) [ none ↦ decoded | some der ↦ der ]

unfoldable pub decode_cert : Env → String → FilePath → String → Exec (Option CertInfo)
decode_cert env name path cert_data =
    if cert_data == ""
    then fail (message ("no client certificate found in kubeconfig " <> path_text path))
    else (do
      decoded ←
          wrap ("decoding cert from kubeconfig " <> path_text path)
            (lift (env.base64_decode cert_data))
      cert ←
          wrap ("parsing cert from kubeconfig " <> path_text path)
            (lift (env.parse_certificate (der_of env decoded)))
      t ← now env
      pure (some (cert_info env name path cert t [] [])))

unfoldable pub parse_kubeconfig_bytes : Env → String → FilePath → Bytes → Exec (Option CertInfo)
parse_kubeconfig_bytes env name path bytes = do
  raw ← wrap ("parsing kubeconfig " <> path_text path) (lift (env.yaml_unmarshal bytes))
  cert_data ← lift (extract_client_cert_data raw path)
  decode_cert env name path cert_data

-- A kubeconfig that does not exist is skipped.
unfoldable pub parse_kubeconfig_read :
    Env → String → FilePath → Error ⊎ Bytes → Exec (Option CertInfo)
parse_kubeconfig_read env name path (inl (not_exist s)) = pure none
parse_kubeconfig_read env name path (inl e) = fail e
parse_kubeconfig_read env name path (inr bytes) = parse_kubeconfig_bytes env name path bytes

unfoldable pub parse_kubeconfig_cert : Env → String → FilePath → Exec (Option CertInfo)
parse_kubeconfig_cert env name path = do
  r ← attempt (read_file env path)
  parse_kubeconfig_read env name path r

unfoldable pub classified : Detector → CertInfo → CertInfo
classified d info = record info { status = classify d info.residual_days }

unfoldable pub detect_pki :
    Env → Detector → List (String × FilePath) → List CertInfo → Exec (List CertInfo)
detect_pki env d [] certs = pure certs
detect_pki env d ((name, rel) ∷ rest) certs = do
  info ←
      wrap ("reading cert " <> name <> " at " <> path_text (d.pki_dir ++ rel))
        (parse_cert env name (d.pki_dir ++ rel))
  detect_pki env d rest (certs ++ (classified d info ∷ []))

unfoldable pub append_found : Detector → List CertInfo → Option CertInfo → List CertInfo
append_found d certs none = certs
append_found d certs (some info) = certs ++ (classified d info ∷ [])

unfoldable pub detect_kubeconfigs :
    Env → Detector → List (String × FilePath) → List CertInfo → Exec (List CertInfo)
detect_kubeconfigs env d [] certs = pure certs
detect_kubeconfigs env d ((name, rel) ∷ rest) certs = do
  info ←
      wrap ("reading kubeconfig cert " <> name <> " at " <> path_text (d.kubeconfig_dir ++ rel))
        (parse_kubeconfig_cert env name (d.kubeconfig_dir ++ rel))
  detect_kubeconfigs env d rest (append_found d certs info)

unfoldable pub detect : Env → Detector → String → Exec DetectionResult
detect env d node = do
  pki ← range_map env cert_files
  certs ← detect_pki env d pki []
  kubeconfigs ← range_map env kubeconfig_certs
  all ← detect_kubeconfigs env d kubeconfigs certs
  pure (record { node = node; certs = all })

abbrev pub is_not_ok : CertInfo → Bool
is_not_ok c = not (c.status == CertStatus.ok)

unfoldable pub needs_renewal : DetectionResult → Bool
needs_renewal r = any is_not_ok r.certs

unfoldable pub is_urgent : DetectionResult → Bool
is_urgent r = any (λ c. c.status == expired) r.certs
