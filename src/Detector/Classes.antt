-- ===== src/Detector/Classes.antt =====
-- What the detection says of the certificates it found.
use cert_rotator.Base.{
  ℕ, String, Bool, false, not, List, [], ◌∷◌, ◌++◌, any, All, Option, none, some, ◌==◌, ◌≡◌, refl,
  arith,
}
use cert_rotator.Base.Int.{ℤ, pos, negsuc, leb_ℤ}
use cert_rotator.Api.{FilePath}
use cert_rotator.Host.{Env, World, Result}
use cert_rotator.Host.Ensures.{Ensures, Ensures-bind, Ensures-pure, Ensures-any, Ensures-ok}
use cert_rotator.Detector.{
  CertInfo, DetectionResult, Detector, CertStatus, expired, cert_status_eq, classify, classified,
  append_found, detect_pki, detect_kubeconfigs, detect, needs_renewal, is_urgent, is_not_ok,
}

-- The status of the certificate is the one that its residual days have.
abbrev pub IsClassified : Detector → CertInfo → Type 0
IsClassified d info = info.status ≡ classify d info.residual_days

All-append :
    {A : Type 0} (P : A → Type 0) (xs : List A) (a : A) → All P xs → P a → All P (xs ++ (a ∷ []))
All-append P [] a hs h = (h, tt)
All-append P (x ∷ xs) a hs h = (hs.0, All-append P xs a hs.1 h)

classified-IsClassified : (d : Detector) (info : CertInfo) → IsClassified d (classified d info)
unfolding classified
classified-IsClassified d info = refl

detect_pki-Ensures :
    (env : Env) (d : Detector) (files : List (String × FilePath)) (certs : List CertInfo)
    → All (IsClassified d) certs
    → Ensures (All (IsClassified d)) (detect_pki env d files certs)
unfolding detect_pki
detect_pki-Ensures env d [] certs h = Ensures-pure certs h
detect_pki-Ensures env d ((name, rel) ∷ files) certs h = Ensures-bind _ _ (Ensures-any _) λ info _.
    detect_pki-Ensures env d files _
      (All-append (IsClassified d) certs _ h (classified-IsClassified d info))

append_found-IsClassified :
    (d : Detector) (certs : List CertInfo) (info : Option CertInfo)
    → All (IsClassified d) certs
    → All (IsClassified d) (append_found d certs info)
unfolding append_found
append_found-IsClassified d certs none h = h
append_found-IsClassified d certs (some info) h =
    All-append (IsClassified d) certs _ h (classified-IsClassified d info)

detect_kubeconfigs-Ensures :
    (env : Env) (d : Detector) (files : List (String × FilePath)) (certs : List CertInfo)
    → All (IsClassified d) certs
    → Ensures (All (IsClassified d)) (detect_kubeconfigs env d files certs)
unfolding detect_kubeconfigs
detect_kubeconfigs-Ensures env d [] certs h = Ensures-pure certs h
detect_kubeconfigs-Ensures env d ((name, rel) ∷ files) certs h =
    Ensures-bind _ _ (Ensures-any _)
      λ info _. detect_kubeconfigs-Ensures env d files _ (append_found-IsClassified d certs info h)

pub detect-Ensures :
    (env : Env) (d : Detector) (node : String)
    → Ensures (λ r. All (IsClassified d) r.certs) (detect env d node)
unfolding detect
detect-Ensures env d node = Ensures-bind _ _ (Ensures-any _) λ pki _.
    Ensures-bind _ _ (detect_pki-Ensures env d pki [] tt) λ certs h.
      Ensures-bind _ _ (Ensures-any _) λ files _.
        Ensures-bind _ _ (detect_kubeconfigs-Ensures env d files certs h)
          λ all h'. Ensures-pure _ h'

-- The certificate has no more than the threshold's days left.
abbrev pub is_due : Detector → CertInfo → Bool
is_due d info = leb_ℤ info.residual_days d.threshold_days

ok-ne-expired : (CertStatus.ok == CertStatus.expired) ≡ false
ok-ne-expired = ground arith

classify_lem :
    (d : Detector) (n : ℕ) (residual : ℤ)
    → d.threshold_days ≡ pos n
    → (not (classify d residual == CertStatus.ok) ≡ leb_ℤ residual d.threshold_days)
      × ((classify d residual == expired) ≡ leb_ℤ residual (pos 0))
unfolding classify
classify_lem d n (pos k) e = (ground (arith, e), ground (arith, e))
classify_lem d n (negsuc k) e = (ground (arith, e), ground (arith, e))

needs_renewal_by :
    (d : Detector) (n : ℕ) (certs : List CertInfo)
    → d.threshold_days ≡ pos n
    → All (IsClassified d) certs
    → (any is_not_ok certs ≡ any (is_due d) certs)
      × (any (λ c. c.status == CertStatus.expired) certs
          ≡ any (λ c. leb_ℤ c.residual_days (pos 0)) certs)
needs_renewal_by d n [] e h = (refl, refl)
needs_renewal_by d n (c ∷ certs) e h =
    let (due, urgent) = classify_lem d n c.residual_days e in
    let (dues, urgents) = needs_renewal_by d n certs e h.1 in
    (ground (arith, h.0, due, dues), ground (arith, h.0, urgent, urgents))

-- With a threshold of n ≥ 0 days, if a detection returns a result, this asks for a renewal just if
-- some certificate in it has at most n days left, and is urgent just if some certificate in it has
-- at most 0 days left.
pub detect-needs_renewal :
    (env : Env) (d : Detector) (node : String) (n : ℕ) (w : World) (r : DetectionResult)
    (w' : World)
    → d.threshold_days ≡ pos n
    → detect env d node w ≡ (Result.ok r, w')
    → (needs_renewal r ≡ any (is_due d) r.certs)
      × (is_urgent r ≡ any (λ c. leb_ℤ c.residual_days (pos 0)) r.certs)
unfolding needs_renewal is_urgent
detect-needs_renewal env d node n w r w' e found = needs_renewal_by d n r.certs e (
    Ensures-ok (λ r. All (IsClassified d) r.certs) (detect env d node) w (detect-Ensures env d node)
      found)
