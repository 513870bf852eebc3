-- ===== src/Signer/Renewed.antt =====
-- What a renewed certificate has of the one it renews.
use cert_rotator.Base.{ℕ, ◌+◌, inr, ◌≡◌, refl, ap, sym, ◌∙◌, arith}
use cert_rotator.Base.Int.{◌+ℤ◌, ◌-ℤ◌}
use cert_rotator.Host.{Env, Bytes, Certificate, PrivateKey, World, ok, wrap, lift, next_call, ◌>>=◌}
use cert_rotator.Host.Inversion.{>>=-eq-ok, wrap-eq-ok}
use cert_rotator.Host.Written.{next_call-ok, lift-ok, now-ok, pure-ok}
use cert_rotator.Generator.{
  cert_validity, ten_minutes, generate_key, template, build_template, encode_cert_pem,
  encode_key_pem,
}
use cert_rotator.Signer.{sign, sign_with_self_key}

-- The template that the CA signs.
abbrev pub Mirrors : Certificate → Certificate → Type 0
Mirrors t c =
    (t.common_name ≡ c.common_name)
    × (t.organization ≡ c.organization)
    × (t.organizational_unit ≡ c.organizational_unit)
    × (t.country ≡ c.country)
    × (t.dns_names ≡ c.dns_names)
    × (t.ip_addresses ≡ c.ip_addresses)
    × (t.uris ≡ c.uris)
    × (t.key_usage ≡ c.key_usage)
    × (t.ext_key_usage ≡ c.ext_key_usage)
    × (t.is_ca ≡ c.is_ca)

pub generate_key-ok :
    (env : Env) (w : World) {key : PrivateKey} {w' : World}
    → generate_key env w ≡ (ok key, w')
    → (env.generate_key w.calls ≡ inr key) × (w'.calls ≡ w.calls + 1)
unfolding generate_key wrap lift next_call ◌>>=◌
generate_key-ok env w done = ground arith

build_template-ok :
    (env : Env) (existing : Certificate) (w : World) {t : Certificate} {w' : World}
    → build_template env existing w ≡ (ok t, w')
    → (serial : ℕ) × (env.random_int w.calls ≡ inr serial)
      × (t ≡ template existing serial (env.clock (w.calls + 1)))
      × (w'.calls ≡ w.calls + 2)
unfolding build_template
build_template-ok env existing w {t} {w'} done =
    let (n, w1, e1, d1) = >>=-eq-ok _ _ w done in
    let (at_n, at_w1) = next_call-ok w e1 in
    let (serial, w2, e2, d2) = >>=-eq-ok _ _ w1 d1 in
    let (drawn, at_w2) = lift-ok (env.random_int n) w1 (wrap-eq-ok _ _ w1 e2) in
    let (t0, w3, e3, d3) = >>=-eq-ok _ _ w2 d2 in
    let (at_t, at_w3) = now-ok env w2 e3 in
    let (built, at_w') = pure-ok _ w3 d3 in
    let at_2 : w2.calls ≡ w.calls + 1 = sym (ap World.calls (at_w1 ∙ at_w2)) in
    (
      serial,
      ap env.random_int at_n ∙ drawn,
      sym built ∙ ap (template existing serial) (sym at_t ∙ ap env.clock at_2),
      sym (ap World.calls (at_w3 ∙ at_w')) ∙ omega (arith, at_2),
    )

pub sign-ok :
    (env : Env) (t ca_cert : Certificate) (ca_key key : PrivateKey) (w : World) {der : Bytes}
    {w' : World}
    → sign env t ca_cert ca_key key w ≡ (ok der, w')
    → (env.create_certificate w.calls t ca_cert key ca_key ≡ inr der) × (w'.calls ≡ w.calls + 1)
unfolding sign wrap lift next_call ◌>>=◌
sign-ok env t ca_cert ca_key key w done = ground arith

-- A signing that ends well has generated a key and had the CA sign a template for it that has the
-- subject, the DNS names, addresses and URIs, the key usages and the CA flag of the existing
-- certificate and is valid from ten minutes before the moment of its making to 365 days after it;
-- the result is the PEM text of the signed certificate and that of the key.
pub sign_with_self_key_lem :
    (env : Env) (existing ca_cert : Certificate) (ca_key : PrivateKey) (w : World)
    (pems : Bytes × Bytes) (w' : World)
    → sign_with_self_key env existing ca_cert ca_key w ≡ (ok pems, w')
    → (key : PrivateKey) × (t : Certificate) × (der : Bytes) × (env.generate_key w.calls ≡ inr key)
      × Mirrors t existing
      × (t.not_before ≡ env.clock (w.calls + 2) -ℤ ten_minutes)
      × (t.not_after ≡ env.clock (w.calls + 2) +ℤ cert_validity)
      × (env.create_certificate (w.calls + 3) t ca_cert key ca_key ≡ inr der)
      × (pems ≡ (env.pem_encode "CERTIFICATE" der, env.pem_encode "RSA PRIVATE KEY" key.der))
unfolding sign_with_self_key encode_cert_pem encode_key_pem
sign_with_self_key_lem env existing ca_cert ca_key w pems w' done =
    let (key, w1, e1, d1) = >>=-eq-ok _ _ w done in
    let (made, at_w1) = generate_key-ok env w (wrap-eq-ok _ _ w e1) in
    let (t, w2, e2, d2) = >>=-eq-ok _ _ w1 d1 in
    let (serial, _, is_t, at_w2) = build_template-ok env existing w1 (wrap-eq-ok _ _ w1 e2) in
    let (der, w3, e3, d3) = >>=-eq-ok _ _ w2 d2 in
    let (signed, at_w3) = sign-ok env t ca_cert ca_key key w2 e3 in
    let (encoded, _) = pure-ok _ w3 d3 in
    let at_2 : w2.calls ≡ w.calls + 3 = omega (arith, at_w1, at_w2) in
    let is_time : env.clock (w1.calls + 1) ≡ env.clock (w.calls + 2) =
      ap env.clock (omega (arith, at_w1)) in
    let is_made : t ≡ template existing serial (env.clock (w.calls + 2)) =
      is_t ∙ ap (template existing serial) is_time in
    (
      key,
      t,
      der,
      made,
      rw is_made (refl, refl, refl, refl, refl, refl, refl, refl, refl, refl),
      ap Certificate.not_before is_made,
      ap Certificate.not_after is_made,
      ap (λ n. env.create_certificate n t ca_cert key ca_key) (sym at_2) ∙ signed,
      sym encoded,
    )
