-- ===== src/Generator/Loaded.antt =====
-- Where a certificate that was loaded comes from.
use cert_rotator.Base.{String, Option, none, some, inr, inl, ◌⊎◌, ◌≡◌, ap, ◌∙◌}
use cert_rotator.Api.{FilePath}
use cert_rotator.Host.{Env, Error, Bytes, File, Certificate, PrivateKey, World, ok, fail, pure}
use cert_rotator.Host.Inversion.{>>=-eq-ok, wrap-eq-ok}
use cert_rotator.Host.Written.{lift-ok, read_file-ok}
use cert_rotator.Generator.{
  read_pem_file, block, load_existing_cert, load_ca_cert, load_ca_key, parse_ca_key, rsa_key,
}

-- The certificate in the file at a path.
abbrev pub LoadedFrom : Env → FilePath → World → Certificate → Type 0
LoadedFrom env path w cert =
    (f : File) × (der : Bytes) × (w.files path ≡ some f)
    × (env.pem_decode f.content ≡ some der)
    × (env.parse_certificate der ≡ inr cert)

block-ok :
    (s : String) (decoded : Option Bytes) (w : World) {der : Bytes} {w' : World}
    → block s decoded w ≡ (ok der, w')
    → decoded ≡ some der
unfolding pure fail
block-ok s none w done = cc
block-ok s (some der) w done = cc

pub load_existing_cert-ok :
    (env : Env) (path : FilePath) (w : World) {cert : Certificate} {w' : World}
    → load_existing_cert env path w ≡ (ok cert, w')
    → LoadedFrom env path w cert
unfolding load_existing_cert read_pem_file
load_existing_cert-ok env path w done =
    let (bytes, w1, e1, d1) = >>=-eq-ok _ _ w done in
    let (f, there, is_content, _) =
      read_file-ok env path w (wrap-eq-ok _ _ w (wrap-eq-ok _ _ w e1)) in
    let (der, w2, e2, d2) = >>=-eq-ok _ _ w1 d1 in
    let (parsed, _) = lift-ok (env.parse_certificate der) w2 (wrap-eq-ok _ _ w2 d2) in
    (f, der, there, ap env.pem_decode is_content ∙ block-ok _ (env.pem_decode bytes) w1 e2, parsed)

pub load_ca_cert-ok :
    (env : Env) (path : FilePath) (w : World) {cert : Certificate} {w' : World}
    → load_ca_cert env path w ≡ (ok cert, w')
    → LoadedFrom env path w cert
unfolding load_ca_cert
load_ca_cert-ok env path w done = load_existing_cert-ok env path w done

-- The RSA key in the file at a path, in one of the two encodings.
abbrev pub KeyLoadedFrom : Env → FilePath → World → PrivateKey → Type 0
KeyLoadedFrom env path w key =
    (f : File) × (der : Bytes) × (w.files path ≡ some f)
    × (env.pem_decode f.content ≡ some der)
    × ((env.parse_pkcs1_private_key der ≡ inr key)
        ⊎ (env.parse_pkcs8_private_key der ≡ inr (some key)))

rsa_key-ok :
    (path : FilePath) (e : Error) (r : Error ⊎ Option PrivateKey) {key : PrivateKey}
    → rsa_key path e r ≡ inr key
    → r ≡ inr (some key)
unfolding rsa_key
rsa_key-ok path e (inl e2) parsed = cc
rsa_key-ok path e (inr none) parsed = cc
rsa_key-ok path e (inr (some k)) parsed = cc

parse_ca_key-ok :
    (env : Env) (path : FilePath) (der : Bytes) (r : Error ⊎ PrivateKey) {key : PrivateKey}
    → parse_ca_key env path der r ≡ inr key
    → (r ≡ inr key) ⊎ (env.parse_pkcs8_private_key der ≡ inr (some key))
unfolding parse_ca_key
parse_ca_key-ok env path der (inl e) parsed = inr (rsa_key-ok path e _ parsed)
parse_ca_key-ok env path der (inr k) parsed = inl parsed

pub load_ca_key-ok :
    (env : Env) (path : FilePath) (w : World) {key : PrivateKey} {w' : World}
    → load_ca_key env path w ≡ (ok key, w')
    → KeyLoadedFrom env path w key
unfolding load_ca_key read_pem_file
load_ca_key-ok env path w done =
    let (bytes, w1, e1, d1) = >>=-eq-ok _ _ w done in
    let (f, there, is_content, _) =
      read_file-ok env path w (wrap-eq-ok _ _ w (wrap-eq-ok _ _ w e1)) in
    let (der, w2, e2, d2) = >>=-eq-ok _ _ w1 d1 in
    let (parsed, _) = lift-ok (parse_ca_key env path der (env.parse_pkcs1_private_key der)) w2 d2 in
    (
      f,
      der,
      there,
      ap env.pem_decode is_content ∙ block-ok _ (env.pem_decode bytes) w1 e2,
      parse_ca_key-ok env path der _ parsed,
    )
