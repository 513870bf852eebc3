-- ===== src/Signer.antt =====
-- Signing by the right CA (pkg/signer/signer.go).
pub mod Frame
pub mod Renewed
use cert_rotator.Base.{String, ◌<>◌, List, [], ◌∷◌, contains, string_eq, ◌==◌, if◌then◌else◌}
use cert_rotator.Api.{FilePath}
use cert_rotator.Host.{
  Env, Bytes, Certificate, PrivateKey, Exec, pure, wrap, lift, next_call, ◌>>=◌,
}
use cert_rotator.Generator.{generate_key, build_template, encode_cert_pem, encode_key_pem}

unfoldable pub sign : Env → Certificate → Certificate → PrivateKey → PrivateKey → Exec Bytes
sign env template ca_cert ca_key key = do
  n ← next_call
  wrap ("signing certificate " <> template.common_name)
      (lift (env.create_certificate n template ca_cert key ca_key))

unfoldable pub sign_with_self_key :
    Env → Certificate → Certificate → PrivateKey → Exec (Bytes × Bytes)
sign_with_self_key env existing ca_cert ca_key = do
  key ← wrap "generating key" (generate_key env)
  template ← wrap "building template" (build_template env existing)
  der ← sign env template ca_cert ca_key key
  pure (encode_cert_pem env der, encode_key_pem env key)

abbrev etcd_certs : List String
etcd_certs = "etcd-server" ∷ "etcd-peer" ∷ "etcd-healthcheck-client" ∷ "apiserver-etcd-client" ∷ []

unfoldable pub ca_for_cert : String → FilePath × FilePath
ca_for_cert name =
    if contains name etcd_certs
    then (
      "etc" ∷ "kubernetes" ∷ "pki" ∷ "etcd" ∷ "ca.crt" ∷ [],
      "etc" ∷ "kubernetes" ∷ "pki" ∷ "etcd" ∷ "ca.key" ∷ [],
    )
    else if name == "front-proxy-client"
    then (
      "etc" ∷ "kubernetes" ∷ "pki" ∷ "front-proxy-ca.crt" ∷ [],
      "etc" ∷ "kubernetes" ∷ "pki" ∷ "front-proxy-ca.key" ∷ [],
    )
    else (
      "etc" ∷ "kubernetes" ∷ "pki" ∷ "ca.crt" ∷ [],
      "etc" ∷ "kubernetes" ∷ "pki" ∷ "ca.key" ∷ [],
    )
