-- ===== src/Controller/Renewal/Issued.antt =====
-- What the renewal of one certificate leaves on disk.
use mathlib.Core.Path.{subst}
use cert_rotator.Base.{ℕ, ◌+◌, String, false, ◌++◌, Option, none, some, inr, ◌≡◌, refl, sym, ◌∙◌}
use cert_rotator.Base.Int.{◌+ℤ◌, ◌-ℤ◌}
use cert_rotator.Base.Dict.{lookup}
use cert_rotator.Api.{FilePath, CertRotationConfigSpec}
use cert_rotator.Host.{Env, Bytes, File, Certificate, PrivateKey, World, ok, fail}
use cert_rotator.Host.Inversion.{>>=-eq-ok, wrap-eq-ok, Keeps-eq}
use cert_rotator.Host.Frame.{FileIs}
use cert_rotator.Detector.{CertInfo}
use cert_rotator.Generator.{cert_validity, ten_minutes, load_existing_cert, load_ca_cert}
use cert_rotator.Generator.Frame.{load_existing_cert-FileIs}
use cert_rotator.Generator.Loaded.{
  LoadedFrom, KeyLoadedFrom, load_existing_cert-ok, load_ca_cert-ok, load_ca_key-ok,
}
use cert_rotator.Signer.{ca_for_cert}
use cert_rotator.Signer.Renewed.{Mirrors, sign_with_self_key_lem}
use cert_rotator.Writer.{cert_paths}
use cert_rotator.Writer.Contents.{write_cert_key_pair_lem}
use cert_rotator.Writer.Owner.{cert-apart-key}
use cert_rotator.Controller.Renewal.{write_renewed, renew_cert}

-- A certificate that a CA signed from call `n` on, for a new key, in place of an existing one.
pub record Signed (env : Env) (n : ℕ) (existing ca_cert : Certificate) (ca_key : PrivateKey)
    (der key_der : Bytes) : Type 0 where
  pub key : PrivateKey
  pub template : Certificate
  pub generated : env.generate_key n ≡ inr key
  pub mirrors : Mirrors template existing
  pub begins : template.not_before ≡ env.clock (n + 2) -ℤ ten_minutes
  pub ends : template.not_after ≡ env.clock (n + 2) +ℤ cert_validity
  pub created : env.create_certificate (n + 3) template ca_cert key ca_key ≡ inr der
  pub is_key : key.der ≡ key_der

-- The PEM texts of such a certificate and of its key are in the files at two paths.
pub record Stored (env : Env) (cert key : FilePath) (der key_der : Bytes) (w : World) : Type 0 where
  pub cert_file : File
  pub key_file : File
  pub cert_there : w.files cert ≡ some cert_file
  pub key_there : w.files key ≡ some key_file
  pub cert_text : cert_file.content ≡ env.pem_encode "CERTIFICATE" der
  pub key_text : key_file.content ≡ env.pem_encode "RSA PRIVATE KEY" key_der

-- In `w` the existing certificate and the CA's are read, in `w'` the renewed one is there.
pub record Renewed (env : Env) (spec : CertRotationConfigSpec) (info : CertInfo) (w w' : World)
    : Type 0 where
  pub cert : FilePath
  pub key : FilePath
  pub has_paths : lookup info.name cert_paths ≡ some (cert, key)
  pub existing : Certificate
  pub ca_cert : Certificate
  pub ca_key : PrivateKey
  pub read : LoadedFrom env info.path w existing
  pub read_ca : LoadedFrom env (ca_for_cert info.name).0 w ca_cert
  pub read_ca_key : KeyLoadedFrom env (ca_for_cert info.name).1 w ca_key
  pub call : ℕ
  pub der : Bytes
  pub key_der : Bytes
  pub signed : Signed env call existing ca_cert ca_key der key_der
  pub stored : Stored env (spec.pki_dir ++ cert) (spec.pki_dir ++ key) der key_der w'

write_renewed-Stored :
    (env : Env) (spec : CertRotationConfigSpec) (name : String) (der key_der : Bytes)
    (found : Option (FilePath × FilePath)) (w : World) {w' : World}
    → lookup name cert_paths ≡ found
    → write_renewed env spec name
        (env.pem_encode "CERTIFICATE" der, env.pem_encode "RSA PRIVATE KEY" key_der)
        found
        w
      ≡ (ok tt, w')
    → (cert : FilePath) × (key : FilePath) × (found ≡ some (cert, key))
      × Stored env (spec.pki_dir ++ cert) (spec.pki_dir ++ key) der key_der w'
unfolding write_renewed fail
write_renewed-Stored env spec name der key_der none w is_found done = absurd (cc)
write_renewed-Stored env spec name der key_der (some (cert, key)) w {w'} is_found done =
    let (at_cert, at_key) =
      write_cert_key_pair_lem env (record { pki_dir = spec.pki_dir; dry_run = false }) cert key _ _
        w w' refl (cert-apart-key spec.pki_dir name is_found) (wrap-eq-ok _ _ w done) in
    (
      cert,
      key,
      refl,
      record {
        cert_file = _;
        key_file = _;
        cert_there = at_cert;
        key_there = at_key;
        cert_text = refl;
        key_text = refl;
      },
    )

-- What was loaded from a file can be loaded from it wherever it is the same.
pub moved :
    (env : Env) (path : FilePath) (v w : World) {cert : Certificate}
    → v.files path ≡ w.files path
    → LoadedFrom env path v cert
    → LoadedFrom env path w cert
moved env path v w same (f, der, there, decoded, parsed) =
    (f, der, sym same ∙ there, decoded, parsed)

pub moved_key :
    (env : Env) (path : FilePath) (v w : World) {key : PrivateKey}
    → v.files path ≡ w.files path
    → KeyLoadedFrom env path v key
    → KeyLoadedFrom env path w key
moved_key env path v w same (f, der, there, decoded, parsed) =
    (f, der, sym same ∙ there, decoded, parsed)

loading_same :
    (env : Env) (path q : FilePath) (w : World) {cert : Certificate} {w' : World}
    → load_existing_cert env path w ≡ (ok cert, w')
    → w'.files q ≡ w.files q
loading_same env path q w done =
    (Keeps-eq (FileIs q (w.files q)) _ w (load_existing_cert-FileIs env path)
      (record { same = refl }) done).same

pub renew_cert-Renewed :
    (env : Env) (spec : CertRotationConfigSpec) (info : CertInfo) (w : World) {w' : World}
    → renew_cert env spec info w ≡ (ok tt, w')
    → Renewed env spec info w w'
unfolding renew_cert load_ca_cert
renew_cert-Renewed env spec info w {w'} done =
    let (existing, w1, e1, d1) = >>=-eq-ok _ _ w done in
    let (ca_cert, w2, e2, d2) = >>=-eq-ok _ _ w1 d1 in
    let (ca_key, w3, e3, d3) = >>=-eq-ok _ _ w2 d2 in
    let (pems, w4, e4, d4) = >>=-eq-ok _ _ w3 d3 in
    let (key, t, der, made, mirrors, begins, ends, created, is_pems) =
      sign_with_self_key_lem env existing ca_cert ca_key w3 pems w4 (wrap-eq-ok _ _ w3 e4) in
    let (cert_path, key_path, found, stored) =
      write_renewed-Stored env spec info.name der key.der (lookup info.name cert_paths) w4 refl (
        subst
          (λ p. write_renewed env spec info.name p (lookup info.name cert_paths) w4 ≡ (ok tt, w'))
          is_pems d4) in
    let ca_path = (ca_for_cert info.name).0 in
    let key_at = (ca_for_cert info.name).1 in
    let same_1 = λ (q : FilePath). loading_same env info.path q w (wrap-eq-ok _ _ w e1) in
    let same_2 = λ (q : FilePath). loading_same env ca_path q w1 (wrap-eq-ok _ _ w1 e2) in
    record {
      cert = cert_path;
      key = key_path;
      has_paths = found;
      existing = existing;
      ca_cert = ca_cert;
      ca_key = ca_key;
      read = load_existing_cert-ok env info.path w (wrap-eq-ok _ _ w e1);
      read_ca =
          moved env ca_path w1 w (same_1 ca_path)
            (load_ca_cert-ok env ca_path w1 (wrap-eq-ok _ _ w1 e2));
      read_ca_key =
          moved_key env key_at w2 w (same_2 key_at ∙ same_1 key_at)
            (load_ca_key-ok env key_at w2 (wrap-eq-ok _ _ w2 e3));
      call = w3.calls;
      der = der;
      key_der = key.der;
      signed = record {
        key = key;
        template = t;
        generated = made;
        mirrors = mirrors;
        begins = begins;
        ends = ends;
        created = created;
        is_key = refl;
      };
      stored = stored;
    }
