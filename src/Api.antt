-- ===== src/Api.antt =====
-- The schema of the CertRotationConfig resource (api/v1alpha1/certrotationconfig_types.go).
-- A `metav1.Time` is a number of nanoseconds; a directory or a file name is a list of components.
use cert_rotator.Base.{String, Bool, List, Option, Eq}
use cert_rotator.Base.Int.{ℤ}
use cert_rotator.Base.Dict.{Dict}

abbrev pub Time : Type 0
Time = ℤ

-- An absolute path that `filepath.Join` has cleaned; `[]` is the empty string.
abbrev pub FilePath : Type 0
FilePath = List String

pub record SmtpSpec : Type 0 where
  pub enabled : Bool
  pub secret_ref : String

pub record SlackSpec : Type 0 where
  pub enabled : Bool
  pub secret_ref : String

pub record NotificationSpec : Type 0 where
  pub smtp : SmtpSpec
  pub slack : SlackSpec

pub record CertRotationConfigSpec : Type 0 where
  pub threshold_days : ℤ
  pub check_interval_hours : ℤ
  pub dry_run : Bool
  pub backup_dir : FilePath
  pub backup_retention_days : ℤ
  pub pki_dir : FilePath
  pub kubeconfig_dir : FilePath
  pub manifests_dir : FilePath
  pub health_check_timeout_seconds : ℤ
  pub health_check_max_attempts : ℤ
  pub notifications : NotificationSpec

-- Here and below `unset` is the empty string of a value that was never written.
pub data ClusterPhase : Type 0 where
  unset idle renewing failed : ClusterPhase

pub data NodePhase : Type 0 where
  unset idle detecting renewing rolling_back failed critical : NodePhase

NodePhase-discrete : Discrete NodePhase
NodePhase-discrete = hlevel

instance unfoldable pub node_phase_eq : Eq NodePhase
unfolding NodePhase-discrete
node_phase_eq = record { dec = NodePhase-discrete }

pub record CertStatus : Type 0 where
  pub name : String
  pub expiry_time : Time
  pub residual_days : ℤ
  pub status : String

pub record NodeStatus : Type 0 where
  pub node : String
  pub phase : NodePhase
  pub last_checked_at : Option Time
  pub last_renewed_at : Option Time
  pub backup_path : FilePath
  pub failure_reason : String
  pub certs : List CertStatus

-- `metav1.Condition`, whose status is "True" or "False" here.
pub record Condition : Type 0 where
  pub type : String
  pub status : Bool
  pub reason : String
  pub message : String
  pub last_transition_time : Time

pub record CertRotationConfigStatus : Type 0 where
  pub phase : ClusterPhase
  pub last_checked_at : Option Time
  pub last_renewed_at : Option Time
  pub nodes : Dict NodeStatus
  pub conditions : List Condition

abbrev pub condition_certs_healthy : String
condition_certs_healthy = "CertsHealthy"

abbrev pub condition_renewal_in_progress : String
condition_renewal_in_progress = "RenewalInProgress"

abbrev pub condition_critical_failure : String
condition_critical_failure = "CriticalFailure"
