-- ===== src/Host/Types.antt =====
-- The state, the answers of the outside, and Go's errors.
use cert_rotator.Base.{ℕ, String, ◌<>◌, Bool, List, [], ◌∷◌, Option, ◌⊎◌}
use cert_rotator.Base.Int.{ℤ}
use cert_rotator.Api.{Time, FilePath, CertRotationConfigSpec, CertRotationConfigStatus, Condition}

abbrev pub Bytes : Type 0
Bytes = List ℕ

-- A Go error. `not_exist` is what `os.IsNotExist` recognises: it does not look inside
-- `fmt.Errorf("...: %w", err)`, which is `wrapped`.
pub data Error : Type 0 where
  not_exist : String → Error
  message : String → Error
  wrapped : String → Error → Error

-- `err.Error()`
abbrev pub text : Error → String
text (not_exist s) = s
text (message s) = s
text (wrapped s e) = s <> ": " <> text e

abbrev pub path_text : FilePath → String
path_text [] = ""
path_text (c ∷ p) = "/" <> c <> path_text p

abbrev pub rel_text : FilePath → String
rel_text [] = ""
rel_text (c ∷ []) = c
rel_text (c ∷ p) = c <> "/" <> rel_text p

-- The fields of an `x509.Certificate` that the program reads or sets.
pub record Certificate : Type 0 where
  pub serial_number : ℕ
  pub common_name : String
  pub organization : List String
  pub organizational_unit : List String
  pub country : List String
  pub not_before : Time
  pub not_after : Time
  pub dns_names : List String
  pub ip_addresses : List String
  pub uris : List String
  pub key_usage : ℕ
  pub ext_key_usage : List ℕ
  pub is_ca : Bool
  pub basic_constraints_valid : Bool
  pub email_addresses : List String
  pub extensions : List (String × Bytes)
  pub extra_extensions : List (String × Bytes)

-- An RSA key stands for its PKCS#1 encoding.
pub record PrivateKey : Type 0 where
  pub der : Bytes

-- A decoded YAML document: `interface{}`. A `map[string]interface{}` is `Fields`.
mutual
  pub data Value : Type 0 where
    null : Value
    str : String → Value
    other : String → Value
    seq : Items → Value
    dict : Fields → Value

  pub data Items : Type 0 where
    nil : Items
    cons : Value → Items → Items

  pub data Fields : Type 0 where
    end : Fields
    field : String → Value → Fields → Fields

pub record File : Type 0 where
  pub content : Bytes
  pub mode : ℕ

-- How a call of the operating system fails: with no effect, or after a write that stopped early.
pub data Fault : Type 0 where
  refused : String → Fault
  torn : String → Bytes → Fault

-- The answer to `r.Get`.
pub data Fetched : Type 0 where
  absent : Fetched
  unreachable : Error → Fetched
  found : CertRotationConfigSpec → CertRotationConfigStatus → Fetched

-- The answers of the outside. Those that may change from call to call take the call's number.
pub record Env : Type 0 where
  pub fault : ℕ → Option Fault
  pub clock : ℕ → Time
  -- the order in which a `range` over a map visits its keys
  pub order : ℕ → List String → List String
  -- float64 values by their bits: `d.Hours()`, `float64(n)`, `a / b`, `int(x)`
  pub hours : ℤ → ℕ
  pub float_of_int : ℤ → ℕ
  pub float_div : ℕ → ℕ → ℕ
  pub int_of_float : ℕ → ℤ
  pub pem_decode : Bytes → Option Bytes
  pub pem_encode : String → Bytes → Bytes
  pub parse_certificate : Bytes → Error ⊎ Certificate
  pub parse_pkcs1_private_key : Bytes → Error ⊎ PrivateKey
  -- `inr none` is a key that is not RSA
  pub parse_pkcs8_private_key : Bytes → Error ⊎ Option PrivateKey
  pub generate_key : ℕ → Error ⊎ PrivateKey
  pub random_int : ℕ → Error ⊎ ℕ
  -- template, parent, the key that is certified, the parent's key
  pub create_certificate : ℕ → Certificate → Certificate → PrivateKey → PrivateKey → Error ⊎ Bytes
  pub base64_decode : String → Error ⊎ Bytes
  -- `inr none` is a document that leaves the map nil
  pub yaml_unmarshal : Bytes → Error ⊎ Option Fields
  pub yaml_marshal : Fields → Error ⊎ Bytes
  pub json_marshal : Fields → Error ⊎ String
  -- `t.Format(layout)`
  pub format : String → Time → String
  pub dial : ℕ → String → Option Error
  pub http_get : ℕ → String → Error ⊎ ℕ
  pub send_mail : ℕ → String → List String → String → Option Error
  pub http_post : ℕ → String → String → Error ⊎ ℕ
  pub get : ℕ → Fetched
  -- `r.Status().Patch`: the status before, the status after, and the server's answer
  pub patch :
      ℕ → CertRotationConfigStatus → CertRotationConfigStatus → Error ⊎ CertRotationConfigStatus
  pub set_status_condition : List Condition → Condition → List Condition

-- What the program did to the outside, newest first.
pub data Event : Type 0 where
  wrote : FilePath → Event
  slept : ℕ → Event
  dialled : String → Event
  requested : String → Event
  mailed : List String → Event
  posted : String → Event
  patched : CertRotationConfigStatus → Event

pub record World : Type 0 where
  -- the calls made so far
  pub calls : ℕ
  pub files : FilePath → Option File
  pub dirs : FilePath → Bool
  -- `cfg.Status`, which the helpers of the controller share through a pointer
  pub status : CertRotationConfigStatus
  pub trace : List Event
