-- ===== src/Detector/Shown.antt =====
-- What a detection reports of the certificate in a file.
use cert_rotator.Base.{
  ℕ, String, List, [], Option, none, some, ◌⊎◌, inl, inr, ◌==◌, string_eq, ◌≡◌, ◌≢◌, refl, ap, sym,
  ◌∙◌, arith,
}
use cert_rotator.Api.{FilePath}
use cert_rotator.Host.{
  Env, Bytes, Error, not_exist, message, wrapped, Certificate, File, Fields, World, ok, fail,
  attempt, read_file,
}
use cert_rotator.Host.Inversion.{>>=-eq-ok, wrap-eq-ok, not_refused}
use cert_rotator.Host.Written.{
  lift-ok, pure-ok, now-ok, read_file-ok, read_file-not_exist, attempt-inr,
}
use cert_rotator.Detector.{
  CertInfo, Detector, classify, residual_days_of, cert_info, classified, parse_block,
  parse_pem_cert, parse_cert, extract_client_cert_data, der_of, decode_cert, parse_kubeconfig_bytes,
  parse_kubeconfig_read, parse_kubeconfig_cert,
}

-- The certificate in a PEM file.
abbrev pub FromPem : Env → Option File → Certificate → Type 0
FromPem env x cert =
    (f : File) × (der : Bytes) × (x ≡ some f)
    × (env.pem_decode f.content ≡ some der)
    × (env.parse_certificate der ≡ inr cert)

-- The first client certificate in a kubeconfig, with or without a PEM layer below the base64.
abbrev pub FromKubeconfig : Env → FilePath → Option File → Certificate → Type 0
FromKubeconfig env path x cert =
    (f : File) × (raw : Option Fields) × (text : String) × (decoded : Bytes) × (x ≡ some f)
    × (env.yaml_unmarshal f.content ≡ inr raw)
    × (extract_client_cert_data raw path ≡ inr text)
    × (text ≢ "")
    × (env.base64_decode text ≡ inr decoded)
    × (env.parse_certificate (der_of env decoded) ≡ inr cert)

-- The entry of a certificate, with its DNS names and addresses, at a moment of the clock.
pub record Entry (env : Env) (d : Detector) (From : Certificate → Type 0)
    (names_of : Certificate → List String × List String) (name : String) (path : FilePath)
    (c : CertInfo) : Type 0 where
  pub cert : Certificate
  pub from : From cert
  pub is_named : c.name ≡ name
  pub is_at : c.path ≡ path
  pub expires : c.expiry ≡ cert.not_after
  pub is_about : c.subject ≡ cert.common_name
  pub has_names : (c.dns_names, c.ip_addresses) ≡ names_of cert
  pub call : ℕ
  pub days_left : c.residual_days ≡ residual_days_of env cert.not_after (env.clock call)
  pub is_classified : c.status ≡ classify d c.residual_days

abbrev pub own_names : Certificate → List String × List String
own_names cert = (cert.dns_names, cert.ip_addresses)

abbrev pub no_names : Certificate → List String × List String
no_names cert = ([], [])

pub classified-Entry :
    (env : Env) (d : Detector) (From : Certificate → Type 0)
    (names_of : Certificate → List String × List String) (name : String) (path : FilePath)
    (cert : Certificate) (n : ℕ) (info : CertInfo)
    → From cert
    → info ≡ cert_info env name path cert (env.clock n) (names_of cert).0 (names_of cert).1
    → Entry env d From names_of name path (classified d info)
unfolding classified cert_info
classified-Entry env d From names_of name path cert n info from is_info = record {
  cert = cert;
  from = from;
  is_named = ap CertInfo.name is_info;
  is_at = ap CertInfo.path is_info;
  expires = ap CertInfo.expiry is_info;
  is_about = ap CertInfo.subject is_info;
  has_names = ap (λ c. (CertInfo.dns_names c, CertInfo.ip_addresses c)) is_info;
  call = n;
  days_left = ap CertInfo.residual_days is_info;
  is_classified = refl;
}

module _ (env : Env) (name : String) (path : FilePath) where
  parse_block-ok :
      (block : Option Bytes) (w : World) {info : CertInfo} {w' : World}
      → parse_block env name path block w ≡ (ok info, w')
      → (der : Bytes) × (cert : Certificate) × (n : ℕ) × (block ≡ some der)
        × (env.parse_certificate der ≡ inr cert)
        × (info ≡ cert_info env name path cert (env.clock n) cert.dns_names cert.ip_addresses)
  unfolding parse_block fail
  parse_block-ok none w done = absurd (cc)
  parse_block-ok (some der) w done =
      let (cert, w1, e1, d1) = >>=-eq-ok _ _ w done in
      let (parsed, _) = lift-ok (env.parse_certificate der) w (wrap-eq-ok _ _ w e1) in
      let (t, w2, e2, d2) = >>=-eq-ok _ _ w1 d1 in
      let (at_t, _) = now-ok env w1 e2 in
      let (built, _) = pure-ok _ w2 d2 in
      (
        der,
        cert,
        w1.calls,
        refl,
        parsed,
        sym built
            ∙ ap (λ u. cert_info env name path cert u cert.dns_names cert.ip_addresses) (sym at_t),
      )

  pub parse_cert-ok :
      (w : World) {info : CertInfo} {w' : World}
      → parse_cert env name path w ≡ (ok info, w')
      → (cert : Certificate) × (n : ℕ) × FromPem env (w.files path) cert
        × (info ≡ cert_info env name path cert (env.clock n) cert.dns_names cert.ip_addresses)
  unfolding parse_cert parse_pem_cert
  parse_cert-ok w done =
      let (bytes, w1, e1, d1) = >>=-eq-ok _ _ w done in
      let (f, there, is_content, _) = read_file-ok env path w e1 in
      let (der, cert, n, is_block, parsed, is_info) = parse_block-ok _ w1 d1 in
      (cert, n, (f, der, there, ap env.pem_decode is_content ∙ is_block, parsed), is_info)

  -- What a kubeconfig that was read yields.
  abbrev pub Found : Option File → Option CertInfo → Type 0
  Found x r =
      (info : CertInfo) × (cert : Certificate) × (n : ℕ) × (r ≡ some info)
      × FromKubeconfig env path x cert
      × (info ≡ cert_info env name path cert (env.clock n) [] [])

  parse_kubeconfig_bytes-ok :
      (f : File) (bytes : Bytes) (x : Option File) (w : World) {r : Option CertInfo} {w' : World}
      → x ≡ some f
      → f.content ≡ bytes
      → parse_kubeconfig_bytes env name path bytes w ≡ (ok r, w')
      → Found x r
  unfolding parse_kubeconfig_bytes decode_cert
  parse_kubeconfig_bytes-ok f bytes x w there is_content done =
      let (raw, w1, e1, d1) = >>=-eq-ok _ _ w done in
      let (decoded_1, _) = lift-ok (env.yaml_unmarshal bytes) w (wrap-eq-ok _ _ w e1) in
      let (text, w2, e2, d2) = >>=-eq-ok _ _ w1 d1 in
      let (extracted, _) = lift-ok (extract_client_cert_data raw path) w1 e2 in
      let (not_empty, d2') = not_refused (text == "") _ _ w2 d2 in
      let (decoded, w3, e3, d3) = >>=-eq-ok _ _ w2 d2' in
      let (decoded_2, _) = lift-ok (env.base64_decode text) w2 (wrap-eq-ok _ _ w2 e3) in
      let (cert, w4, e4, d4) = >>=-eq-ok _ _ w3 d3 in
      let (parsed, _) =
        lift-ok (env.parse_certificate (der_of env decoded)) w3 (wrap-eq-ok _ _ w3 e4) in
      let (t, w5, e5, d5) = >>=-eq-ok _ _ w4 d4 in
      let (at_t, _) = now-ok env w4 e5 in
      let (built, _) = pure-ok _ w5 d5 in
      (
        cert_info env name path cert t [] [],
        cert,
        w4.calls,
        sym built,
        (
          f,
          raw,
          text,
          decoded,
          there,
          ap env.yaml_unmarshal is_content ∙ decoded_1,
          extracted,
          (λ empty. ground (arith, empty, not_empty)),
          decoded_2,
          parsed,
        ),
        ap (λ u. cert_info env name path cert u [] []) (sym at_t),
      )

  on_read-ok :
      (answer : Error ⊎ Bytes) (w w1 : World) {r : Option CertInfo} {w' : World}
      → attempt (read_file env path) w ≡ (ok answer, w1)
      → parse_kubeconfig_read env name path answer w1 ≡ (ok r, w')
      → (w.files path ≡ none) ⊎ Found (w.files path) r
  unfolding parse_kubeconfig_read fail
  on_read-ok (inl (not_exist s)) w w1 tried done = inl (read_file-not_exist env path w tried).0
  on_read-ok (inl (message s)) w w1 tried done = absurd (cc)
  on_read-ok (inl (wrapped s e)) w w1 tried done = absurd (cc)
  on_read-ok (inr bytes) w w1 tried done =
      let (f, there, is_content, _) = read_file-ok env path w (attempt-inr _ w tried) in
      inr (parse_kubeconfig_bytes-ok f bytes (w.files path) w1 there is_content done)

  pub parse_kubeconfig_cert-ok :
      (w : World) {r : Option CertInfo} {w' : World}
      → parse_kubeconfig_cert env name path w ≡ (ok r, w')
      → (w.files path ≡ none) ⊎ Found (w.files path) r
  unfolding parse_kubeconfig_cert
  parse_kubeconfig_cert-ok w done =
      let (answer, w1, e1, d1) = >>=-eq-ok _ _ w done in on_read-ok answer w w1 e1 d1
