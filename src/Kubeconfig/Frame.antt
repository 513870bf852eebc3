-- ===== src/Kubeconfig/Frame.antt =====
-- The files that a renewal of kubeconfigs leaves alone.
use cert_rotator.Base.{String, false, List, [], ◌∷◌, ◌≡◌, ◌≢◌, Option, ◌⊎◌, inl, inr}
use cert_rotator.Api.{FilePath}
use cert_rotator.Host.{
  Env, Bytes, Error, not_exist, message, wrapped, File, Certificate, PrivateKey, is_prefix,
}
use cert_rotator.Host.Keeps.{Keeps, Keeps-bind, Keeps-if, Keeps-pure}
use cert_rotator.Host.Frame.{FileIs, file_rules, append-ne}
use cert_rotator.Generator.Frame.{generate_key-FileIs, load_ca_cert-FileIs, load_ca_key-FileIs}
use cert_rotator.Signer.Frame.{sign-FileIs}
use cert_rotator.Kubeconfig.{
  Codec, KubeconfigFile, User, Manager, build_client_cert_template, generate_client_cert,
  write_updated, finish, renew_users, renew_read, renew, renew_each, renew_all,
}

module _ {q : FilePath} {x : Option File} (env : Env) where
  pub build_client_cert_template-FileIs :
      (name : String) → Keeps (FileIs q x) (build_client_cert_template env name)
  unfolding build_client_cert_template
  build_client_cert_template-FileIs name = search file_rules depth 8

  pub generate_client_cert-FileIs :
      (name : String) (ca_cert : Certificate) (ca_key : PrivateKey)
      → Keeps (FileIs q x) (generate_client_cert env name ca_cert ca_key)
  unfolding generate_client_cert
  generate_client_cert-FileIs name ca_cert ca_key =
      search (file_rules, generate_key-FileIs, build_client_cert_template-FileIs, sign-FileIs) depth
        8

  write_updated-FileIs :
      (codec : Codec) (filename : String) (path : FilePath) (kc : KubeconfigFile)
      → path ≢ q
      → Keeps (FileIs q x) (write_updated env codec filename path kc)
  unfolding write_updated
  write_updated-FileIs codec filename path kc ne = search file_rules depth 8

  module _ (codec : Codec) (m : Manager)
      (outside : m.dry_run ≡ false → is_prefix m.kubeconfig_dir q ≡ false) where
    finish-FileIs :
        (filename : String) (kc : KubeconfigFile)
        → Keeps (FileIs q x) (finish env codec m filename kc)
    unfolding finish
    finish-FileIs filename kc =
        Keeps-if m.dry_run _ _ (λ dry. Keeps-pure tt)
          λ real.
            write_updated-FileIs codec filename _ kc (append-ne m.kubeconfig_dir _ q (outside real))

    renew_users-FileIs :
        (filename name : String) (kc : KubeconfigFile) (us : List User)
        → Keeps (FileIs q x) (renew_users env codec m filename name kc us)
    unfolding renew_users
    renew_users-FileIs filename name kc [] = search file_rules
    renew_users-FileIs filename name kc (u ∷ us) =
        Keeps-bind _ _ (search (file_rules, load_ca_cert-FileIs)) λ ca_cert.
          Keeps-bind _ _ (search (file_rules, load_ca_key-FileIs)) λ ca_key.
            Keeps-bind _ _ (search (file_rules, generate_client_cert-FileIs))
              λ pems. finish-FileIs filename _

    renew_read-FileIs :
        (filename name : String) (r : Error ⊎ Bytes)
        → Keeps (FileIs q x) (renew_read env codec m filename name r)
    unfolding renew_read
    renew_read-FileIs filename name (inl (not_exist s)) = search file_rules
    renew_read-FileIs filename name (inl (message s)) = search file_rules
    renew_read-FileIs filename name (inl (wrapped s e)) = search file_rules
    renew_read-FileIs filename name (inr bytes) = search (file_rules, renew_users-FileIs)

    renew-FileIs : (filename name : String) → Keeps (FileIs q x) (renew env codec m filename name)
    unfolding renew
    renew-FileIs filename name = search (file_rules, renew_read-FileIs)

    renew_each-FileIs :
        (entries : List (String × String)) → Keeps (FileIs q x) (renew_each env codec m entries)
    unfolding renew_each
    renew_each-FileIs [] = search file_rules
    renew_each-FileIs ((filename, name) ∷ rest) =
        Keeps-bind _ _ (search (file_rules, renew-FileIs)) λ _. renew_each-FileIs rest

    -- A renewal of the kubeconfigs, however it ends, changes no file outside the kubeconfig
    -- directory, and in a dry run no file at all.
    pub renew_all-FileIs : Keeps (FileIs q x) (renew_all env codec m)
    unfolding renew_all
    renew_all-FileIs =
        Keeps-bind _ _ (search file_rules)
          λ _. Keeps-bind _ _ (search file_rules) λ entries. renew_each-FileIs entries
