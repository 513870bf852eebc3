-- ===== src/Config.antt =====
-- The configuration from environment variables (config/config.go). No other package loads it.
pub mod Reload
use cert_rotator.Base.{
  ℕ, String, Bool, true, false, List, [], ◌∷◌, Option, none, some, any, ◌==◌, string_eq,
  if◌then◌else◌,
}
use cert_rotator.Base.Int.{ℤ, pos, scale, int64}
use cert_rotator.Base.Decimal.Parse.{atoi}

-- `os.Getenv`: the empty string stands for a variable that is not set, too.
abbrev pub Vars : Type 0
Vars = String → String

pub record Config : Type 0 where
  pub backup_dir : String
  pub state_file : String
  pub renewal_threshold_days : ℤ
  pub check_interval : ℤ
  pub pki_dir : String
  pub manifest_dir : String
  pub kubeconfig_dir : String
  pub ca_key_path : String
  pub etcd_ca_key_path : String
  pub front_proxy_ca_key_path : String
  pub current_node : String
  pub smtp_enabled : Bool
  pub smtp_host : String
  pub smtp_port : ℤ
  pub smtp_from : String
  pub smtp_to : List String
  pub slack_webhook_enabled : Bool
  pub slack_webhook_url : String
  pub dry_run : Bool

unfoldable pub get_env : Vars → String → String → String
get_env vars key fallback = let val = vars key in if val == "" then fallback else val

abbrev pub or_else {ℓ} : {A : Type ℓ} → A → Option A → A
or_else fallback none = fallback
or_else fallback (some a) = a

-- The empty string is no number.
unfoldable pub get_env_int : Vars → String → ℤ → ℤ
get_env_int vars key fallback =
    let val = vars key in if val == "" then fallback else or_else fallback (atoi val)

abbrev pub true_texts : List String
true_texts = "1" ∷ "t" ∷ "T" ∷ "true" ∷ "TRUE" ∷ "True" ∷ []

abbrev pub false_texts : List String
false_texts = "0" ∷ "f" ∷ "F" ∷ "false" ∷ "FALSE" ∷ "False" ∷ []

-- `strconv.ParseBool`
unfoldable pub parse_bool : String → Option Bool
parse_bool s =
    if any (λ t. s == t) true_texts
    then some true
    else if any (λ t. s == t) false_texts
    then some false
    else none

unfoldable pub get_env_bool : Vars → String → Bool → Bool
get_env_bool vars key fallback =
    let val = vars key in if val == "" then fallback else or_else fallback (parse_bool val)

-- `time.Hour`
abbrev pub hour : ℕ
hour = 3600000000000

-- `Load`, which `Default` is another name of
unfoldable pub load : Vars → Config
load vars = record {
  backup_dir = get_env vars "CERT_ROTATOR_BACKUP_DIR" "/var/lib/cert-rotator/backups";
  state_file = get_env vars "CERT_ROTATOR_STATE_FILE" "/var/lib/cert-rotator/state.json";
  renewal_threshold_days = get_env_int vars "CERT_ROTATOR_THRESHOLD_DAYS" (pos 30);
  check_interval =
      int64 (scale (get_env_int vars "CERT_ROTATOR_CHECK_INTERVAL_HOURS" (pos 24)) hour);
  pki_dir = get_env vars "CERT_ROTATOR_PKI_DIR" "/etc/kubernetes/pki";
  manifest_dir = get_env vars "CERT_ROTATOR_MANIFEST_DIR" "/etc/kubernetes/manifests";
  kubeconfig_dir = get_env vars "CERT_ROTATOR_KUBECONFIG_DIR" "/etc/kubernetes";
  ca_key_path = get_env vars "CERT_ROTATOR_CA_KEY_PATH" "/etc/kubernetes/pki/ca.key";
  etcd_ca_key_path = get_env vars "CERT_ROTATOR_ETCD_CA_KEY_PATH" "/etc/kubernetes/pki/etcd/ca.key";
  front_proxy_ca_key_path =
      get_env vars "CERT_ROTATOR_FRONT_PROXY_CA_KEY_PATH" "/etc/kubernetes/pki/front-proxy-ca.key";
  current_node = get_env vars "NODE_NAME" "";
  smtp_enabled = get_env_bool vars "CERT_ROTATOR_SMTP_ENABLED" false;
  smtp_host = get_env vars "CERT_ROTATOR_SMTP_HOST" "";
  smtp_port = get_env_int vars "CERT_ROTATOR_SMTP_PORT" (pos 587);
  smtp_from = get_env vars "CERT_ROTATOR_SMTP_FROM" "";
  smtp_to = [];
  slack_webhook_enabled = get_env_bool vars "CERT_ROTATOR_SLACK_ENABLED" false;
  slack_webhook_url = get_env vars "CERT_ROTATOR_SLACK_WEBHOOK_URL" "";
  dry_run = get_env_bool vars "CERT_ROTATOR_DRY_RUN" false;
}
