-- ===== src/Controller/Renewal/Pipeline.antt =====
-- Every certificate that is due is renewed by a renewal that succeeds.
use mathlib.Core.Path.{subst}
use cert_rotator.Base.{
  String, string_eq, false, List, [], ◌∷◌, ◌++◌, All, Option, none, some, ◌≡◌, ◌≢◌, refl, sym, ◌∙◌,
}
use cert_rotator.Base.Dict.{lookup}
use cert_rotator.Api.{FilePath, CertRotationConfigSpec}
use cert_rotator.Host.{Env, Bytes, File, World, ok, pure, is_prefix}
use cert_rotator.Host.Inversion.{>>=-eq-ok, >>=-done, Keeps-eq}
use cert_rotator.Host.Keeps.{Keeps, Keeps-bind}
use cert_rotator.Host.Frame.{FileIs, file_rules}
use cert_rotator.Detector
use cert_rotator.Detector.{CertInfo, DetectionResult, cert_status_eq}
use cert_rotator.Generator.Frame.{
  load_existing_cert-FileIs, load_ca_cert-FileIs, load_ca_key-FileIs,
}
use cert_rotator.Signer.{ca_for_cert}
use cert_rotator.Signer.Frame.{sign_with_self_key-FileIs}
use cert_rotator.Writer.{cert_paths}
use cert_rotator.Writer.Frame.{write_cert_key_pair-apart}
use cert_rotator.Writer.Owner.{IsOther, cert-IsOther, key-IsOther}
use cert_rotator.Controller.Renewal.{write_renewed, renew_cert, renew_each}
use cert_rotator.Controller.Renewal.Issued.{Renewed, moved, moved_key, renew_cert-Renewed}
use cert_rotator.Controller.Renewal.Success.{not_ok_branch}

module _ {q : FilePath} {x : Option File} (env : Env) (spec : CertRotationConfigSpec) where
  write_renewed-apart :
      (name : String) (pems : Bytes × Bytes) (found : Option (FilePath × FilePath))
      → lookup name cert_paths ≡ found
      → IsOther spec.pki_dir q name
      → Keeps (FileIs q x) (write_renewed env spec name pems found)
  unfolding write_renewed
  write_renewed-apart name pems none is_found other = search file_rules
  write_renewed-apart name (cert, key) (some (rel_cert, rel_key)) is_found other =
      let (not_cert, not_key) = other.apart is_found in
      search
        (file_rules, write_cert_key_pair-apart q env _ rel_cert rel_key cert key not_cert not_key)

  write_found-apart :
      (name : String) (pems : Bytes × Bytes)
      → IsOther spec.pki_dir q name
      → Keeps (FileIs q x) (write_renewed env spec name pems (lookup name cert_paths))
  write_found-apart name pems other = write_renewed-apart name pems _ refl other

  renew_cert-apart :
      (info : CertInfo)
      → IsOther spec.pki_dir q info.name
      → Keeps (FileIs q x) (renew_cert env spec info)
  unfolding renew_cert
  renew_cert-apart info other =
      search
        (
          file_rules, load_existing_cert-FileIs, load_ca_cert-FileIs, load_ca_key-FileIs,
          sign_with_self_key-FileIs, write_found-apart,
        )
        depth 12

  renew_each-apart :
      (certs : List CertInfo)
      → All (λ o. IsOther spec.pki_dir q o.name) certs
      → Keeps (FileIs q x) (renew_each env spec certs)
  unfolding renew_each
  renew_each-apart [] others = search file_rules
  renew_each-apart (info ∷ certs) (other, others) =
      Keeps-bind _ _ (search (file_rules, renew_cert-apart info other))
        (λ _. renew_each-apart certs others)

renew_each-append :
    (env : Env) (spec : CertRotationConfigSpec) (xs ys : List CertInfo) (w : World) {w' : World}
    → renew_each env spec (xs ++ ys) w ≡ (ok tt, w')
    → (w1 : World) × (renew_each env spec xs w ≡ (ok tt, w1))
      × (renew_each env spec ys w1 ≡ (ok tt, w'))
unfolding renew_each pure
renew_each-append env spec [] ys w done = (w, refl, done)
renew_each-append env spec (info ∷ xs) ys w done =
    let (_, w1, first, rest) = >>=-eq-ok _ _ w done in
    let (w2, here, there) = renew_each-append env spec xs ys w1 rest in
    (w2, >>=-done _ _ w first here, there)

-- A file outside the backups that no certificate is written to.
pub record IsSafe (spec : CertRotationConfigSpec) (p : FilePath) : Type 0 where
  pub no_backup : is_prefix spec.backup_dir p ≡ false
  pub no_target : (name : String) → IsOther spec.pki_dir p name

-- The renewal of one certificate, between other worlds in which its files are the same.
pub Renewed-between :
    (env : Env) (spec : CertRotationConfigSpec) (info : CertInfo) (v v' w w' : World)
    (renewed : Renewed env spec info v v')
    → v.files info.path ≡ w.files info.path
    → v.files (ca_for_cert info.name).0 ≡ w.files (ca_for_cert info.name).0
    → v.files (ca_for_cert info.name).1 ≡ w.files (ca_for_cert info.name).1
    → w'.files (spec.pki_dir ++ renewed.cert) ≡ v'.files (spec.pki_dir ++ renewed.cert)
    → w'.files (spec.pki_dir ++ renewed.key) ≡ v'.files (spec.pki_dir ++ renewed.key)
    → Renewed env spec info w w'
Renewed-between env spec info v v' w w' renewed same_path same_ca same_key cert_kept key_kept =
    record {
      cert = renewed.cert;
      key = renewed.key;
      has_paths = renewed.has_paths;
      existing = renewed.existing;
      ca_cert = renewed.ca_cert;
      ca_key = renewed.ca_key;
      read = moved env _ v w same_path renewed.read;
      read_ca = moved env _ v w same_ca renewed.read_ca;
      read_ca_key = moved_key env _ v w same_key renewed.read_ca_key;
      call = renewed.call;
      der = renewed.der;
      key_der = renewed.key_der;
      signed = renewed.signed;
      stored = record {
        cert_file = renewed.stored.cert_file;
        key_file = renewed.stored.key_file;
        cert_there = cert_kept ∙ renewed.stored.cert_there;
        key_there = key_kept ∙ renewed.stored.key_there;
        cert_text = renewed.stored.cert_text;
        key_text = renewed.stored.key_text;
      };
    }

-- Certificates of other names.
abbrev pub Others : CertInfo → List CertInfo → Type 0
Others info = All (λ o. o.name ≢ info.name)

Others-apart :
    (pki_dir q : FilePath) (info : CertInfo) (certs : List CertInfo)
    → Others info certs
    → ((name : String) → name ≢ info.name → IsOther pki_dir q name)
    → All (λ o. IsOther pki_dir q o.name) certs
Others-apart pki_dir q info [] others apart = tt
Others-apart pki_dir q info (o ∷ certs) (other, others) apart =
    (apart o.name other, Others-apart pki_dir q info certs others apart)

-- What the renewals of other certificates leave alone.
renew_each-same :
    (env : Env) (spec : CertRotationConfigSpec) (info : CertInfo) (certs : List CertInfo)
    (q : FilePath) (w : World) {w' : World}
    → Others info certs
    → ((name : String) → name ≢ info.name → IsOther spec.pki_dir q name)
    → renew_each env spec certs w ≡ (ok tt, w')
    → w'.files q ≡ w.files q
renew_each-same env spec info certs q w others apart done =
    (Keeps-eq (FileIs q (w.files q)) _ w
      (renew_each-apart env spec certs (Others-apart spec.pki_dir q info certs others apart))
      (record { same = refl }) done).same

-- The certificate's path is the one that the writer has for its name.
abbrev pub AtItsPath : CertRotationConfigSpec → CertInfo → Type 0
AtItsPath spec info =
    (cert key : FilePath)
    → lookup info.name cert_paths ≡ some (cert, key)
    → info.path ≡ spec.pki_dir ++ cert

pub renew_each-Renewed :
    (env : Env) (spec : CertRotationConfigSpec) (before : List CertInfo) (info : CertInfo)
    (after : List CertInfo) (w : World) {w' : World}
    → Others info before
    → Others info after
    → info.status ≢ Detector.CertStatus.ok
    → AtItsPath spec info
    → IsSafe spec (ca_for_cert info.name).0
    → IsSafe spec (ca_for_cert info.name).1
    → renew_each env spec (before ++ (info ∷ after)) w ≡ (ok tt, w')
    → Renewed env spec info w w'
unfolding renew_each
renew_each-Renewed env spec before info after w {w'} others_1 others_2 due at_path ca_safe key_safe
      done =
    let (w1, first, rest) = renew_each-append env spec before (info ∷ after) w done in
    let (_, w2, mine, last) = >>=-eq-ok _ _ w1 rest in
    let renewed = renew_cert-Renewed env spec info w1 (not_ok_branch env spec info w1 due mine) in
    let is_path = at_path renewed.cert renewed.key renewed.has_paths in
    Renewed-between env spec info w1 w2 w w' renewed
      (renew_each-same env spec info before info.path w others_1
        (λ name ne.
          subst (λ p. IsOther spec.pki_dir p name) (sym is_path)
            (cert-IsOther spec.pki_dir info.name name renewed.has_paths ne))
        first)
      (renew_each-same env spec info before _ w others_1 (λ name _. ca_safe.no_target name) first)
      (renew_each-same env spec info before _ w others_1 (λ name _. key_safe.no_target name) first)
      (renew_each-same env spec info after _ w2 others_2
        (λ name ne. cert-IsOther spec.pki_dir info.name name renewed.has_paths ne) last)
      (renew_each-same env spec info after _ w2 others_2
        (λ name ne. key-IsOther spec.pki_dir info.name name renewed.has_paths ne) last)
