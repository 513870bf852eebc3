-- ===== src/Detector/Kept.antt =====
-- What a detection has found stays in its list.
use cert_rotator.Base.{String, List, [], ◌∷◌, ◌++◌, Option, none, some, ◌⊎◌, inl, inr}
use cert_rotator.Api.{FilePath}
use cert_rotator.Host.{Env}
use cert_rotator.Host.Ensures.{Ensures, Ensures-bind, Ensures-pure, Ensures-any}
use cert_rotator.Detector.{
  CertInfo, Detector, classified, append_found, detect_pki, detect_kubeconfigs,
}

-- Some certificate of the list is such.
abbrev pub Has : (CertInfo → Type 0) → List CertInfo → Type 0
Has P [] = ⊥
Has P (c ∷ certs) = P c ⊎ Has P certs

module _ (P : CertInfo → Type 0) where
  Has-later : (certs : List CertInfo) (c : CertInfo) → Has P certs → Has P (certs ++ (c ∷ []))
  Has-later [] c h = elim h [ ]
  Has-later (b ∷ certs) c (inl h) = inl h
  Has-later (b ∷ certs) c (inr h) = inr (Has-later certs c h)

  pub Has-last : (certs : List CertInfo) (c : CertInfo) → P c → Has P (certs ++ (c ∷ []))
  Has-last [] c h = inl h
  Has-last (b ∷ certs) c h = inr (Has-last certs c h)

  module _ (env : Env) (d : Detector) where
    pub detect_pki-kept :
        (files : List (String × FilePath)) (certs : List CertInfo)
        → Has P certs
        → Ensures (Has P) (detect_pki env d files certs)
    unfolding detect_pki
    detect_pki-kept [] certs h = Ensures-pure certs h
    detect_pki-kept ((n, rel) ∷ files) certs h =
        Ensures-bind _ _ (Ensures-any _)
          λ info _. detect_pki-kept files _ (Has-later certs (classified d info) h)

    append_found-kept :
        (certs : List CertInfo) (info : Option CertInfo)
        → Has P certs
        → Has P (append_found d certs info)
    unfolding append_found
    append_found-kept certs none h = h
    append_found-kept certs (some info) h = Has-later certs (classified d info) h

    pub detect_kubeconfigs-kept :
        (files : List (String × FilePath)) (certs : List CertInfo)
        → Has P certs
        → Ensures (Has P) (detect_kubeconfigs env d files certs)
    unfolding detect_kubeconfigs
    detect_kubeconfigs-kept [] certs h = Ensures-pure certs h
    detect_kubeconfigs-kept ((n, rel) ∷ files) certs h =
        Ensures-bind _ _ (Ensures-any _)
          λ info _. detect_kubeconfigs-kept files _ (append_found-kept certs info h)
