-- ===== src/Signer/Frame.antt =====
-- Signing changes no file.
use cert_rotator.Base.{Option}
use cert_rotator.Api.{FilePath}
use cert_rotator.Host.{Env, File, Certificate, PrivateKey}
use cert_rotator.Host.Keeps.{Keeps}
use cert_rotator.Host.Frame.{FileIs, file_rules}
use cert_rotator.Generator.Frame.{generate_key-FileIs, build_template-FileIs}
use cert_rotator.Signer.{sign, sign_with_self_key}

module _ {q : FilePath} {x : Option File} (env : Env) where
  pub sign-FileIs :
      (template ca_cert : Certificate) (ca_key key : PrivateKey)
      → Keeps (FileIs q x) (sign env template ca_cert ca_key key)
  unfolding sign
  sign-FileIs template ca_cert ca_key key = search file_rules

  pub sign_with_self_key-FileIs :
      (existing ca_cert : Certificate) (ca_key : PrivateKey)
      → Keeps (FileIs q x) (sign_with_self_key env existing ca_cert ca_key)
  unfolding sign_with_self_key
  sign_with_self_key-FileIs existing ca_cert ca_key =
      search (file_rules, generate_key-FileIs, build_template-FileIs, sign-FileIs) depth 8
