-- ===== src/Tests/Outside.antt =====
-- A world that answers every call: no call fails, probes are answered, maps are visited in the
-- order of their lists and times are the numbers of the calls.
use cert_rotator.Base.{
  ◌/◌, true, false, List, [], ◌∷◌, Option, none, some, inr, ◌==◌, path_eq, if◌then◌else◌,
}
use cert_rotator.Base.Int.{pos, pos_part}
use cert_rotator.Api.{
  FilePath, CertRotationConfigSpec, CertRotationConfigStatus, ClusterPhase, NodePhase, NodeStatus,
}
use cert_rotator.Host.{Env, Certificate, PrivateKey, File, Fields, dict, end, field, found, World}

abbrev pub spec : CertRotationConfigSpec
spec = record {
  threshold_days = pos 30;
  check_interval_hours = pos 24;
  dry_run = false;
  backup_dir = "backups" ∷ [];
  backup_retention_days = pos 90;
  pki_dir = "pki" ∷ [];
  kubeconfig_dir = "conf" ∷ [];
  manifests_dir = "manifests" ∷ [];
  health_check_timeout_seconds = pos 5;
  health_check_max_attempts = pos 1;
  notifications = record {
    smtp = record { enabled = true; secret_ref = "smtp" };
    slack = record { enabled = true; secret_ref = "slack" };
  };
}

abbrev pub idle_node : NodeStatus
idle_node = record {
  node = "n1";
  phase = NodePhase.idle;
  last_checked_at = none;
  last_renewed_at = none;
  backup_path = [];
  failure_reason = "";
  certs = [];
}

abbrev pub status : CertRotationConfigStatus
status = record {
  phase = ClusterPhase.idle;
  last_checked_at = none;
  last_renewed_at = none;
  nodes = ("n1", idle_node) ∷ [];
  conditions = [];
}

-- Valid for 300 days from the beginning of time.
abbrev pub cert : Certificate
cert = record {
  serial_number = 7;
  common_name = "kube-apiserver";
  organization = [];
  organizational_unit = [];
  country = [];
  not_before = pos 0;
  not_after = pos 25920000000000000;
  dns_names = "kubernetes" ∷ [];
  ip_addresses = "10.0.0.1" ∷ [];
  uris = [];
  key_usage = 5;
  ext_key_usage = 1 ∷ [];
  is_ca = false;
  basic_constraints_valid = true;
  email_addresses = [];
  extensions = [];
  extra_extensions = [];
}

abbrev pub key : PrivateKey
key = record { der = 9 ∷ [] }

abbrev pub manifest : Fields
manifest = field "metadata" (dict end) end

abbrev pub env : Env
env = record {
  fault = λ _. none;
  clock = pos;
  order = λ _ ks. ks;
  hours = λ d. pos_part d / 3600000000000;
  float_of_int = pos_part;
  float_div = λ a b. a / b;
  int_of_float = pos;
  pem_decode = some;
  pem_encode = λ _ bytes. bytes;
  parse_certificate = λ _. inr cert;
  parse_pkcs1_private_key = λ _. inr key;
  parse_pkcs8_private_key = λ _. inr (some key);
  generate_key = λ _. inr key;
  random_int = inr;
  create_certificate = λ _ _ _ _ _. inr (8 ∷ []);
  base64_decode = λ _. inr (6 ∷ []);
  yaml_unmarshal = λ _. inr (some manifest);
  yaml_marshal = λ _. inr (4 ∷ []);
  json_marshal = λ _. inr "{}";
  format = λ _ _. "now";
  dial = λ _ _. none;
  http_get = λ _ _. inr 200;
  send_mail = λ _ _ _ _. none;
  http_post = λ _ _ _. inr 200;
  get = λ _. found spec status;
  patch = λ _ _ after. inr after;
  set_status_condition = λ conditions c. c ∷ conditions;
}

abbrev pub file : File
file = record { content = 1 ∷ 2 ∷ []; mode = 384 }

abbrev pub files : List FilePath → FilePath → Option File
files [] p = none
files (q ∷ qs) p = if p == q then some file else files qs p

-- All directories are there, and these files.
abbrev pub with_files : List FilePath → World
with_files paths = record {
  calls = 0;
  files = files paths;
  dirs = λ _. true;
  status = status;
  trace = [];
}
