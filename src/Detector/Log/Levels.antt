-- ===== src/Detector/Log/Levels.antt =====
-- What the log says of a detection.
use cert_rotator.Base.Int.{ℤ}
use cert_rotator.Host.Ensures.{Ensures-ok}
use cert_rotator.Base.{
  String, string_eq, string_dec, Bool, true, false, not, ◌||◌, List, [], ◌∷◌, ◌++◌, map, any, All,
  Option, none, some, ◌==◌, ◌≡◌, ◌≢◌, refl, sym, ap, ◌∙◌, arith, inl, inr, Bool-cases,
}
use cert_rotator.Base.Dict.{lookup}
use cert_rotator.Host.{Env, World, ok}
use cert_rotator.Detector.{
  CertStatus, unset, expired, approaching, CertInfo, DetectionResult, Detector, cert_status_eq,
  detect, is_not_ok, is_urgent, needs_renewal, classify,
}
use cert_rotator.Detector.Classes.{IsClassified, detect-Ensures}
use cert_rotator.Detector.Log.{log_cert, log_certs, log_summary}
use cert_rotator.Logger.{
  Level, info_level, debug_level, warn_level, error_level, AttrValue, text_value, int_value, Entry,
  build_fields, info, warn, critical,
}

-- The certificate that a line names.
abbrev pub cert_of : Entry → Option AttrValue
cert_of e = lookup "cert" e.attrs

abbrev says_critical : Option AttrValue → Bool
says_critical none = false
says_critical (some (text_value s)) = s == "CRITICAL"
says_critical (some (int_value z)) = false

abbrev pub is_critical_line : Entry → Bool
is_critical_line e = says_critical (lookup "severity" e.attrs)

abbrev pub above_info : Level → Bool
above_info debug_level = false
above_info info_level = false
above_info warn_level = true
above_info error_level = true

record Says (c : CertInfo) (s : CertStatus) (entries : List Entry) : Type 0 where
  names : map cert_of entries ≡ some (text_value c.name) ∷ []
  urgent : any is_critical_line entries ≡ (s == expired)
  due : any (λ e. above_info e.level) entries ≡ not (s == CertStatus.ok)

log_cert-Says :
    (env : Env) (node : String) (c : CertInfo) (s : CertStatus)
    → s ≢ unset
    → Says c s (log_cert env node c s)
unfolding log_cert info warn critical string_eq string_dec build_fields
log_cert-Says env node c CertStatus.ok set = elim (Bool-cases (node == "")) [
  | inl e ↦ record { names = rw e refl; urgent = rw e (ground arith); due = ground arith }
  | inr e ↦ record { names = rw e refl; urgent = rw e (ground arith); due = ground arith }
]
log_cert-Says env node c approaching set = elim (Bool-cases (node == "")) [
  | inl e ↦ record { names = rw e refl; urgent = rw e (ground arith); due = ground arith }
  | inr e ↦ record { names = rw e refl; urgent = rw e (ground arith); due = ground arith }
]
log_cert-Says env node c expired set = elim (Bool-cases (node == "")) [
  | inl e ↦ record { names = rw e refl; urgent = rw e (ground arith); due = ground arith }
  | inr e ↦ record { names = rw e refl; urgent = rw e (ground arith); due = ground arith }
]
log_cert-Says env node c unset set = absurd (set refl)

any-append :
    {A : Type 0} (f : A → Bool) (xs ys : List A) → any f (xs ++ ys) ≡ (any f xs || any f ys)
any-append f [] ys = refl
any-append f (x ∷ xs) ys = ground (arith, any-append f xs ys)

map-append : {A B : Type 0} (f : A → B) (xs ys : List A) → map f (xs ++ ys) ≡ map f xs ++ map f ys
map-append f [] ys = refl
map-append f (x ∷ xs) ys = ap (λ l. f x ∷ l) (map-append f xs ys)

record Tells (certs : List CertInfo) (entries : List Entry) : Type 0 where
  names : map cert_of entries ≡ map (λ c. some (text_value c.name)) certs
  urgent : any is_critical_line entries ≡ any (λ c. c.status == expired) certs
  due : any (λ e. above_info e.level) entries ≡ any is_not_ok certs

log_certs-Tells :
    (env : Env) (node : String) (certs : List CertInfo)
    → All (λ c. c.status ≢ unset) certs
    → Tells certs (log_certs env node certs)
unfolding log_certs
log_certs-Tells env node [] set = record { names = refl; urgent = refl; due = refl }
log_certs-Tells env node (c ∷ certs) (set, sets) =
    let one = log_cert-Says env node c c.status set in
    let rest = log_certs-Tells env node certs sets in
    record {
      names =
          map-append cert_of (log_cert env node c c.status) (log_certs env node certs)
          ∙ ap (λ x. x ++ map cert_of (log_certs env node certs)) one.names
          ∙ ap (λ x. some (text_value c.name) ∷ x) rest.names;
      urgent =
          any-append is_critical_line (log_cert env node c c.status) (log_certs env node certs)
          ∙ ground (arith, one.urgent, rest.urgent);
      due =
          any-append (λ e. above_info e.level) (log_cert env node c c.status)
            (log_certs env node certs)
          ∙ ground (arith, one.due, rest.due);
    }

classify-set : (d : Detector) (residual : ℤ) → classify d residual ≢ unset
unfolding classify
classify-set d residual = ground arith

all_set :
    (d : Detector) (certs : List CertInfo)
    → All (IsClassified d) certs
    → All (λ c. c.status ≢ unset) certs
all_set d [] classified = tt
all_set d (c ∷ certs) (one, rest) =
    (λ e. classify-set d c.residual_days (sym one ∙ e), all_set d certs rest)

-- The log of a detection that returned names each of its certificates once, in order. It has a line
-- marked as critical just if IsUrgent holds of the detection, and a line above the level Info just
-- if NeedsRenewal holds.
pub detect-log_summary :
    (env : Env) (d : Detector) (node : String) (w : World) (r : DetectionResult) (w' : World)
    → detect env d node w ≡ (ok r, w')
    → (map cert_of (log_summary env r) ≡ map (λ c. some (text_value c.name)) r.certs)
      × (any is_critical_line (log_summary env r) ≡ is_urgent r)
      × (any (λ e. above_info e.level) (log_summary env r) ≡ needs_renewal r)
unfolding log_summary is_urgent needs_renewal
detect-log_summary env d node w r w' found =
    let classified =
      Ensures-ok (λ r. All (IsClassified d) r.certs) (detect env d node) w
        (detect-Ensures env d node) found in
    let told = log_certs-Tells env r.node r.certs (all_set d r.certs classified) in
    (told.names, told.urgent, told.due)
