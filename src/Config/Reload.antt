-- ===== src/Config/Reload.antt =====
-- The variables of a configuration load it again.
use cert_rotator.Base.{
  ◌^◌, ◌≤◌, ◌<◌, String, string_eq, string_dec, Bool, true, false, List, [], ◌∷◌, Option, none,
  some, ◌==◌, ◌≡◌, ◌≢◌, refl, sym, ap, ◌∙◌, arith, if◌then◌else◌, All,
}
use cert_rotator.Base.Int.{ℤ, pos, pos_part, neg_part, scale, int64}
use cert_rotator.Base.Decimal.{itoa_ℤ}
use cert_rotator.Base.Decimal.Parse.{atoi}
use cert_rotator.Base.Decimal.RoundTrip.{atoi-itoa_ℤ}
use cert_rotator.Config.{Vars, Config, get_env, get_env_int, get_env_bool, parse_bool, hour, load}

abbrev pub bool_text : Bool → String
bool_text true = "true"
bool_text false = "false"

-- The variables that say what a configuration says, with its check interval in hours.
abbrev pub listing : Config → ℤ → List (String × String)
listing c hours =
    ("CERT_ROTATOR_BACKUP_DIR", c.backup_dir)
    ∷ ("CERT_ROTATOR_STATE_FILE", c.state_file)
    ∷ ("CERT_ROTATOR_THRESHOLD_DAYS", itoa_ℤ c.renewal_threshold_days)
    ∷ ("CERT_ROTATOR_CHECK_INTERVAL_HOURS", itoa_ℤ hours)
    ∷ ("CERT_ROTATOR_PKI_DIR", c.pki_dir)
    ∷ ("CERT_ROTATOR_MANIFEST_DIR", c.manifest_dir)
    ∷ ("CERT_ROTATOR_KUBECONFIG_DIR", c.kubeconfig_dir)
    ∷ ("CERT_ROTATOR_CA_KEY_PATH", c.ca_key_path)
    ∷ ("CERT_ROTATOR_ETCD_CA_KEY_PATH", c.etcd_ca_key_path)
    ∷ ("CERT_ROTATOR_FRONT_PROXY_CA_KEY_PATH", c.front_proxy_ca_key_path)
    ∷ ("NODE_NAME", c.current_node)
    ∷ ("CERT_ROTATOR_SMTP_ENABLED", bool_text c.smtp_enabled)
    ∷ ("CERT_ROTATOR_SMTP_HOST", c.smtp_host)
    ∷ ("CERT_ROTATOR_SMTP_PORT", itoa_ℤ c.smtp_port)
    ∷ ("CERT_ROTATOR_SMTP_FROM", c.smtp_from)
    ∷ ("CERT_ROTATOR_SLACK_ENABLED", bool_text c.slack_webhook_enabled)
    ∷ ("CERT_ROTATOR_SLACK_WEBHOOK_URL", c.slack_webhook_url)
    ∷ ("CERT_ROTATOR_DRY_RUN", bool_text c.dry_run)
    ∷ []

-- The environment of a process with these variables and no other.
unfoldable pub getenv : List (String × String) → Vars
getenv [] key = ""
getenv ((name, val) ∷ rest) key = if name == key then val else getenv rest key

-- What can be said of a configuration in variables: a directory or file whose default is not empty
-- is not empty, the numbers are int64, the interval is a number of hours that does not overflow, and
-- there are no recipients, for which no variable exists.
pub record IsSayable (c : Config) (hours : ℤ) : Type 0 where
  pub full :
      All
        (λ s. s ≢ "")
        (c.backup_dir ∷ c.state_file ∷ c.pki_dir ∷ c.manifest_dir ∷ c.kubeconfig_dir ∷ c.ca_key_path
          ∷ c.etcd_ca_key_path ∷ c.front_proxy_ca_key_path ∷ [])
  pub in_range :
      All
        (λ z. (pos_part z < 2 ^ 63) × (neg_part z ≤ 2 ^ 63))
        (c.renewal_threshold_days ∷ hours ∷ c.smtp_port ∷ [])
  pub interval : c.check_interval ≡ int64 (scale hours hour)
  pub nobody : c.smtp_to ≡ []

get_env-said :
    (vars : Vars) (key fallback : String) {val : String}
    → vars key ≡ val
    → val ≢ ""
    → get_env vars key fallback ≡ val
unfolding get_env
get_env-said vars key fallback said full = ground (arith, said, full)

get_env-blank :
    (vars : Vars) (key : String) {val : String} → vars key ≡ val → get_env vars key "" ≡ val
unfolding get_env
get_env-blank vars key said = ground (arith, said)

full-atoi : {z : ℤ} (s : String) → atoi s ≡ some z → s ≢ ""
unfolding atoi
full-atoi s read = λ empty. nothing (sym (ap atoi empty) ∙ read)
  where
    nothing : {z : ℤ} → ◌≢◌ {A = Option ℤ} none (some z)
    nothing = cc

get_env_int-said :
    (vars : Vars) (key : String) (fallback : ℤ) {z : ℤ}
    → vars key ≡ itoa_ℤ z
    → pos_part z < 2 ^ 63
    → neg_part z ≤ 2 ^ 63
    → get_env_int vars key fallback ≡ z
unfolding get_env_int
get_env_int-said vars key fallback {z} said below above =
    let read = atoi-itoa_ℤ z below above in ground (arith, said, read, full-atoi (itoa_ℤ z) read)

get_env_bool-said :
    (vars : Vars) (key : String) (fallback b : Bool)
    → vars key ≡ bool_text b
    → get_env_bool vars key fallback ≡ b
unfolding get_env_bool parse_bool string_eq string_dec
get_env_bool-said vars key fallback true said = rw said refl
get_env_bool-said vars key fallback false said = rw said refl

-- Loading from the variables of a configuration gives the configuration, if variables can say it.
pub load-listing :
    (c : Config) (hours : ℤ) → IsSayable c hours → load (getenv (listing c hours)) ≡ c
unfolding load getenv string_eq string_dec
load-listing c hours sayable =
    let v = getenv (listing c hours) in
    let (full_0, (full_1, (full_2, (full_3, (full_4, (full_5, (full_6, (full_7, _)))))))) =
      sayable.full in
    let (threshold, (int_hours, (port, _))) = sayable.in_range in
    λ i. record {
      backup_dir =
          get_env-said v "CERT_ROTATOR_BACKUP_DIR" "/var/lib/cert-rotator/backups" refl full_0 i;
      state_file =
          get_env-said v "CERT_ROTATOR_STATE_FILE" "/var/lib/cert-rotator/state.json" refl full_1 i;
      renewal_threshold_days =
          get_env_int-said v "CERT_ROTATOR_THRESHOLD_DAYS" (pos 30) refl threshold.0 threshold.1 i;
      check_interval =
          (ap (λ z. int64 (scale z hour))
                (get_env_int-said v "CERT_ROTATOR_CHECK_INTERVAL_HOURS" (pos 24) refl int_hours.0
                  int_hours.1)
              ∙ sym sayable.interval)
            i;
      pki_dir = get_env-said v "CERT_ROTATOR_PKI_DIR" "/etc/kubernetes/pki" refl full_2 i;
      manifest_dir =
          get_env-said v "CERT_ROTATOR_MANIFEST_DIR" "/etc/kubernetes/manifests" refl full_3 i;
      kubeconfig_dir = get_env-said v "CERT_ROTATOR_KUBECONFIG_DIR" "/etc/kubernetes" refl full_4 i;
      ca_key_path =
          get_env-said v "CERT_ROTATOR_CA_KEY_PATH" "/etc/kubernetes/pki/ca.key" refl full_5 i;
      etcd_ca_key_path =
          get_env-said v "CERT_ROTATOR_ETCD_CA_KEY_PATH" "/etc/kubernetes/pki/etcd/ca.key" refl
            full_6 i;
      front_proxy_ca_key_path =
          get_env-said v "CERT_ROTATOR_FRONT_PROXY_CA_KEY_PATH"
            "/etc/kubernetes/pki/front-proxy-ca.key" refl full_7 i;
      current_node = get_env-blank v "NODE_NAME" refl i;
      smtp_enabled = get_env_bool-said v "CERT_ROTATOR_SMTP_ENABLED" false c.smtp_enabled refl i;
      smtp_host = get_env-blank v "CERT_ROTATOR_SMTP_HOST" refl i;
      smtp_port = get_env_int-said v "CERT_ROTATOR_SMTP_PORT" (pos 587) refl port.0 port.1 i;
      smtp_from = get_env-blank v "CERT_ROTATOR_SMTP_FROM" refl i;
      smtp_to = sym sayable.nobody i;
      slack_webhook_enabled =
          get_env_bool-said v "CERT_ROTATOR_SLACK_ENABLED" false c.slack_webhook_enabled refl i;
      slack_webhook_url = get_env-blank v "CERT_ROTATOR_SLACK_WEBHOOK_URL" refl i;
      dry_run = get_env_bool-said v "CERT_ROTATOR_DRY_RUN" false c.dry_run refl i;
    }
