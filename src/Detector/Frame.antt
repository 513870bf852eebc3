-- ===== src/Detector/Frame.antt =====
-- Detection changes no file.
use cert_rotator.Base.{String, List, [], ◌∷◌, Option, none, some, ◌⊎◌, inl, inr}
use cert_rotator.Api.{FilePath}
use cert_rotator.Host.{Env, Bytes, Error, not_exist, message, wrapped, File}
use cert_rotator.Host.Keeps.{Keeps, Keeps-bind}
use cert_rotator.Host.Frame.{FileIs, file_rules}
use cert_rotator.Detector.{
  Detector, CertInfo, parse_block, parse_pem_cert, parse_cert, decode_cert, parse_kubeconfig_bytes,
  parse_kubeconfig_read, parse_kubeconfig_cert, detect_pki, detect_kubeconfigs, detect,
}

module _ {q : FilePath} {x : Option File} (env : Env) where
  parse_block-FileIs :
      (name : String) (path : FilePath) (der : Option Bytes)
      → Keeps (FileIs q x) (parse_block env name path der)
  unfolding parse_block
  parse_block-FileIs name path none = search file_rules
  parse_block-FileIs name path (some der) = search file_rules

  parse_pem_cert-FileIs :
      (name : String) (path : FilePath) (bytes : Bytes)
      → Keeps (FileIs q x) (parse_pem_cert env name path bytes)
  unfolding parse_pem_cert
  parse_pem_cert-FileIs name path bytes = parse_block-FileIs name path _

  pub parse_cert-FileIs :
      (name : String) (path : FilePath) → Keeps (FileIs q x) (parse_cert env name path)
  unfolding parse_cert
  parse_cert-FileIs name path = search (file_rules, parse_pem_cert-FileIs)

  decode_cert-FileIs :
      (name : String) (path : FilePath) (s : String)
      → Keeps (FileIs q x) (decode_cert env name path s)
  unfolding decode_cert
  decode_cert-FileIs name path s = search file_rules depth 8

  parse_kubeconfig_bytes-FileIs :
      (name : String) (path : FilePath) (bytes : Bytes)
      → Keeps (FileIs q x) (parse_kubeconfig_bytes env name path bytes)
  unfolding parse_kubeconfig_bytes
  parse_kubeconfig_bytes-FileIs name path bytes = search (file_rules, decode_cert-FileIs)

  parse_kubeconfig_read-FileIs :
      (name : String) (path : FilePath) (r : Error ⊎ Bytes)
      → Keeps (FileIs q x) (parse_kubeconfig_read env name path r)
  unfolding parse_kubeconfig_read
  parse_kubeconfig_read-FileIs name path (inl (not_exist s)) = search file_rules
  parse_kubeconfig_read-FileIs name path (inl (message s)) = search file_rules
  parse_kubeconfig_read-FileIs name path (inl (wrapped s e)) = search file_rules
  parse_kubeconfig_read-FileIs name path (inr bytes) = parse_kubeconfig_bytes-FileIs name path bytes

  pub parse_kubeconfig_cert-FileIs :
      (name : String) (path : FilePath) → Keeps (FileIs q x) (parse_kubeconfig_cert env name path)
  unfolding parse_kubeconfig_cert
  parse_kubeconfig_cert-FileIs name path = search (file_rules, parse_kubeconfig_read-FileIs)

  pub detect_pki-FileIs :
      (d : Detector) (files : List (String × FilePath)) (certs : List CertInfo)
      → Keeps (FileIs q x) (detect_pki env d files certs)
  unfolding detect_pki
  detect_pki-FileIs d [] certs = search file_rules
  detect_pki-FileIs d ((name, rel) ∷ rest) certs =
      Keeps-bind _ _ (search (file_rules, parse_cert-FileIs)) λ info. detect_pki-FileIs d rest _

  detect_kubeconfigs-FileIs :
      (d : Detector) (files : List (String × FilePath)) (certs : List CertInfo)
      → Keeps (FileIs q x) (detect_kubeconfigs env d files certs)
  unfolding detect_kubeconfigs
  detect_kubeconfigs-FileIs d [] certs = search file_rules
  detect_kubeconfigs-FileIs d ((name, rel) ∷ rest) certs =
      Keeps-bind _ _ (search (file_rules, parse_kubeconfig_cert-FileIs))
        λ info. detect_kubeconfigs-FileIs d rest _

  pub detect-FileIs : (d : Detector) (node : String) → Keeps (FileIs q x) (detect env d node)
  unfolding detect
  detect-FileIs d node = search (file_rules, detect_pki-FileIs, detect_kubeconfigs-FileIs) depth 8
