-- ===== src/Generator/Frame.antt =====
-- Loading, generating and signing change no file.
use cert_rotator.Base.{String, Option, none, some}
use cert_rotator.Api.{FilePath}
use cert_rotator.Host.{Env, Bytes, File, Certificate}
use cert_rotator.Host.Keeps.{Keeps}
use cert_rotator.Host.Frame.{FileIs, file_rules}
use cert_rotator.Generator.{
  generate_key, build_template, read_pem_file, block, load_existing_cert, load_ca_cert, load_ca_key,
}

module _ {q : FilePath} {x : Option File} (env : Env) where
  pub generate_key-FileIs : Keeps (FileIs q x) (generate_key env)
  unfolding generate_key
  generate_key-FileIs = search file_rules

  pub build_template-FileIs : (c : Certificate) → Keeps (FileIs q x) (build_template env c)
  unfolding build_template
  build_template-FileIs c = search file_rules

  read_pem_file-FileIs : (path : FilePath) → Keeps (FileIs q x) (read_pem_file env path)
  unfolding read_pem_file
  read_pem_file-FileIs path = search file_rules

  block-FileIs : (s : String) (der : Option Bytes) → Keeps (FileIs q x) (block s der)
  block-FileIs s none = search file_rules
  block-FileIs s (some der) = search file_rules

  pub load_existing_cert-FileIs :
      (path : FilePath) → Keeps (FileIs q x) (load_existing_cert env path)
  unfolding load_existing_cert
  load_existing_cert-FileIs path = search (file_rules, read_pem_file-FileIs, block-FileIs)

  pub load_ca_cert-FileIs : (path : FilePath) → Keeps (FileIs q x) (load_ca_cert env path)
  unfolding load_ca_cert
  load_ca_cert-FileIs path = load_existing_cert-FileIs path

  pub load_ca_key-FileIs : (path : FilePath) → Keeps (FileIs q x) (load_ca_key env path)
  unfolding load_ca_key
  load_ca_key-FileIs path = search (file_rules, read_pem_file-FileIs, block-FileIs)
