-- ===== src/Kubeconfig/Issued.antt =====
-- The client certificate that is issued for a kubeconfig, and the file that it is put into.
use cert_rotator.Base.{
  ℕ, ◌+◌, String, false, List, [], ◌∷◌, ◌++◌, some, inr, ◌≡◌, ap, sym, ◌∙◌, arith,
}
use cert_rotator.Base.Int.{◌+ℤ◌, ◌-ℤ◌}
use cert_rotator.Api.{FilePath}
use cert_rotator.Host.{Env, Bytes, File, Certificate, PrivateKey, World, ok}
use cert_rotator.Host.Inversion.{>>=-eq-ok, wrap-eq-ok}
use cert_rotator.Host.Written.{lift-ok, pure-ok, now-ok, next_call-ok, stat-ok, write_file_writes}
use cert_rotator.Generator.{ten_minutes, cert_validity, encode_cert_pem, encode_key_pem}
use cert_rotator.Signer.Renewed.{generate_key-ok, sign-ok}
use cert_rotator.Kubeconfig.{
  Codec, KubeconfigFile, User, Manager, embed, client_cert_template, build_client_cert_template,
  generate_client_cert, write_updated, finish,
}

-- PEM texts of a key and of a client certificate for it that the CA signed for an identity, made
-- from the call number n on. The certificate is for client authentication only and valid from ten
-- minutes before the moment of its making to 365 days after it.
pub record Issued (env : Env) (name : String) (ca_cert : Certificate) (ca_key : PrivateKey)
    (pems : Bytes × Bytes) (n : ℕ) : Type 0 where
  pub key : PrivateKey
  pub made : env.generate_key n ≡ inr key
  pub template : Certificate
  pub is_named : template.common_name ≡ name
  pub is_admin : template.organization ≡ "system:masters" ∷ []
  pub is_client : template.ext_key_usage ≡ 2 ∷ []
  pub has_usage : template.key_usage ≡ 5
  pub is_leaf : template.is_ca ≡ false
  pub starts : template.not_before ≡ env.clock (n + 2) -ℤ ten_minutes
  pub ends : template.not_after ≡ env.clock (n + 3) +ℤ cert_validity
  pub der : Bytes
  pub signed : env.create_certificate (n + 4) template ca_cert key ca_key ≡ inr der
  pub texts : pems ≡ (env.pem_encode "CERTIFICATE" der, env.pem_encode "RSA PRIVATE KEY" key.der)

-- What the codec reads from the file at the path has a first user; the file then holds what the codec
-- writes for the same record with this user's certificate and key replaced by the PEM texts, and
-- keeps its mode.
abbrev pub Replaced : Codec → FilePath → Bytes × Bytes → World → World → Type 0
Replaced codec path pems w w' =
    (f : File) × (kc : KubeconfigFile) × (u : User) × (us : List User) × (bytes : Bytes) × (w.files
        path
      ≡ some f)
    × (codec.unmarshal f.content ≡ inr kc)
    × (kc.users ≡ u ∷ us)
    × (codec.marshal (record kc { users = embed codec pems u ∷ us }) ≡ inr bytes)
    × (w'.files path ≡ some (record { content = bytes; mode = f.mode }))

build_template-ok :
    (env : Env) (name : String) (w : World) {t : Certificate} {w' : World}
    → build_client_cert_template env name w ≡ (ok t, w')
    → (serial : ℕ) × (t
        ≡ client_cert_template name serial (env.clock (w.calls + 1)) (env.clock (w.calls + 2)))
      × (w'.calls ≡ w.calls + 3)
unfolding build_client_cert_template
build_template-ok env name w done =
    let (n, w1, e1, d1) = >>=-eq-ok _ _ w done in
    let (_, at_w1) = next_call-ok w e1 in
    let (serial, w2, e2, d2) = >>=-eq-ok _ _ w1 d1 in
    let (_, at_w2) = lift-ok (env.random_int n) w1 (wrap-eq-ok _ _ w1 e2) in
    let (before, w3, e3, d3) = >>=-eq-ok _ _ w2 d2 in
    let (is_before, at_w3) = now-ok env w2 e3 in
    let (after, w4, e4, d4) = >>=-eq-ok _ _ w3 d3 in
    let (is_after, at_w4) = now-ok env w3 e4 in
    let (built, at_end) = pure-ok _ w4 d4 in
    let at_2 : w2.calls ≡ w.calls + 1 = sym (ap World.calls (at_w1 ∙ at_w2)) in
    let at_3 : w3.calls ≡ w.calls + 2 = sym (ap World.calls at_w3) ∙ omega (arith, at_2) in
    (
      serial,
      sym built ∙ (λ i.
          client_cert_template name serial ((sym is_before ∙ ap env.clock at_2) i)
            ((sym is_after ∙ ap env.clock at_3) i)),
      sym (ap World.calls (at_w4 ∙ at_end)) ∙ omega (arith, at_3),
    )

pub generate_client_cert-ok :
    (env : Env) (name : String) (ca_cert : Certificate) (ca_key : PrivateKey) (w : World)
    {pems : Bytes × Bytes} {w' : World}
    → generate_client_cert env name ca_cert ca_key w ≡ (ok pems, w')
    → Issued env name ca_cert ca_key pems w.calls
unfolding generate_client_cert encode_cert_pem encode_key_pem
generate_client_cert-ok env name ca_cert ca_key w done =
    let (key, w1, e1, d1) = >>=-eq-ok _ _ w done in
    let (made, at_w1) = generate_key-ok env w (wrap-eq-ok _ _ w e1) in
    let (t, w2, e2, d2) = >>=-eq-ok _ _ w1 d1 in
    let (serial, is_t, at_w2) = build_template-ok env name w1 e2 in
    let (der, w3, e3, d3) = >>=-eq-ok _ _ w2 d2 in
    let (signed, _) = sign-ok env t ca_cert ca_key key w2 e3 in
    let (encoded, _) = pure-ok _ w3 d3 in
    let n_1 : w1.calls + 1 ≡ w.calls + 2 = omega (arith, at_w1) in
    let n_2 : w1.calls + 2 ≡ w.calls + 3 = omega (arith, at_w1) in
    let n_3 : w.calls + 4 ≡ w2.calls = omega (arith, at_w1, at_w2) in
    record {
      key = key;
      made = made;
      template = t;
      is_named = ap Certificate.common_name is_t;
      is_admin = ap Certificate.organization is_t;
      is_client = ap Certificate.ext_key_usage is_t;
      has_usage = ap Certificate.key_usage is_t;
      is_leaf = ap Certificate.is_ca is_t;
      starts = ap Certificate.not_before is_t ∙ ap (λ n. env.clock n -ℤ ten_minutes) n_1;
      ends = ap Certificate.not_after is_t ∙ ap (λ n. env.clock n +ℤ cert_validity) n_2;
      der = der;
      signed = ap (λ n. env.create_certificate n t ca_cert key ca_key) n_3 ∙ signed;
      texts = sym encoded;
    }

-- The file as it is written, from the file as it is then.
write_updated-ok :
    (env : Env) (codec : Codec) (filename : String) (path : FilePath) (kc : KubeconfigFile)
    (f : File) (w : World) {w' : World}
    → w.files path ≡ some f
    → write_updated env codec filename path kc w ≡ (ok tt, w')
    → (bytes : Bytes) × (codec.marshal kc ≡ inr bytes)
      × (w'.files path ≡ some (record { content = bytes; mode = f.mode }))
unfolding write_updated
write_updated-ok env codec filename path kc f w there done =
    let (bytes, w1, e1, d1) = >>=-eq-ok _ _ w done in
    let (marshalled, same_1) = lift-ok (codec.marshal kc) w (wrap-eq-ok _ _ w e1) in
    let (g, w2, e2, d2) = >>=-eq-ok _ _ w1 d1 in
    let (there_1, same_2) = stat-ok env path w1 (wrap-eq-ok _ _ w1 e2) in
    let at_w2 : w2.files path ≡ some f =
      ap (λ fs. fs path) same_2 ∙ ap (λ v. World.files v path) (sym same_1) ∙ there in
    let written = write_file_writes env path bytes g.mode w2 (wrap-eq-ok _ _ w2 d2) in
    (bytes, marshalled, rw at_w2 at written)

pub finish-ok :
    (env : Env) (codec : Codec) (m : Manager) (filename : String) (kc : KubeconfigFile) (f : File)
    (w : World) {w' : World}
    → m.dry_run ≡ false
    → w.files (m.kubeconfig_dir ++ (filename ∷ [])) ≡ some f
    → finish env codec m filename kc w ≡ (ok tt, w')
    → (bytes : Bytes) × (codec.marshal kc ≡ inr bytes)
      × (w'.files (m.kubeconfig_dir ++ (filename ∷ []))
          ≡ some (record { content = bytes; mode = f.mode }))
unfolding finish
finish-ok env codec m filename kc f w real there done =
    write_updated-ok env codec filename _ kc f w there (rw real at done)
