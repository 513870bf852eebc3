-- ===== src/Kubeconfig/Renewed.antt =====
-- What the renewal of a kubeconfig leaves in the file.
use cert_rotator.Base.{
  ℕ, String, false, List, [], ◌∷◌, ◌++◌, none, some, ◌⊎◌, inl, inr, ◌≡◌, ◌≢◌, refl, ap, sym, ◌∙◌,
}
use cert_rotator.Api.{FilePath}
use cert_rotator.Host.{
  Env, Bytes, Error, not_exist, message, wrapped, File, Certificate, PrivateKey, World, ok, attempt,
  fail, pure, read_file,
}
use cert_rotator.Host.Inversion.{>>=-eq-ok, wrap-eq-ok}
use cert_rotator.Host.Written.{lift-ok, read_file-ok, read_file-not_exist, attempt-inr, stays}
use cert_rotator.Generator.{load_ca_cert, load_ca_key}
use cert_rotator.Generator.Frame.{load_ca_cert-FileIs, load_ca_key-FileIs}
use cert_rotator.Generator.Loaded.{LoadedFrom, KeyLoadedFrom, load_ca_cert-ok, load_ca_key-ok}
use cert_rotator.Kubeconfig.{
  Codec, KubeconfigFile, User, Manager, embed, generate_client_cert, renew_users, renew_read, renew,
}
use cert_rotator.Kubeconfig.Frame.{generate_client_cert-FileIs}
use cert_rotator.Kubeconfig.Issued.{Issued, Replaced, generate_client_cert-ok, finish-ok}

-- A renewal of the file at a path for an identity, by the CA in a directory.
abbrev pub Renewed : Env → Codec → Manager → String → FilePath → World → World → Type 0
Renewed env codec m name path w w' =
    (ca_cert : Certificate) × (ca_key : PrivateKey) × (pems : Bytes × Bytes) × (n : ℕ) × LoadedFrom
      env (m.pki_dir ++ ("ca.crt" ∷ [])) w ca_cert
    × KeyLoadedFrom env (m.pki_dir ++ ("ca.key" ∷ [])) w ca_key
    × Issued env name ca_cert ca_key pems n
    × Replaced codec path pems w w'

renew_users-ok :
    (env : Env) (codec : Codec) (m : Manager) (filename name : String) (kc : KubeconfigFile)
    (us : List User) (f : File) (w : World) {w' : World}
    → m.dry_run ≡ false
    → kc.users ≡ us
    → w.files (m.kubeconfig_dir ++ (filename ∷ [])) ≡ some f
    → codec.unmarshal f.content ≡ inr kc
    → renew_users env codec m filename name kc us w ≡ (ok tt, w')
    → Renewed env codec m name (m.kubeconfig_dir ++ (filename ∷ [])) w w'
unfolding renew_users fail
renew_users-ok env codec m filename name kc [] f w real is_us there decoded done = cc
renew_users-ok env codec m filename name kc (u ∷ us) f w {w'} real is_us there decoded done =
    let path = m.kubeconfig_dir ++ (filename ∷ []) in
    let (ca_cert, w1, e1, d1) = >>=-eq-ok _ _ w done in
    let loaded = load_ca_cert-ok env _ w (wrap-eq-ok _ _ w e1) in
    let there_1 =
      stays path (load_ca_cert env _) w (load_ca_cert-FileIs env _) there (wrap-eq-ok _ _ w e1) in
    let (ca_key, w2, e2, d2) = >>=-eq-ok _ _ w1 d1 in
    let key_path = m.pki_dir ++ ("ca.key" ∷ []) in
    let same_key : w1.files key_path ≡ w.files key_path =
      stays key_path (load_ca_cert env _) w (load_ca_cert-FileIs env _) refl
        (wrap-eq-ok _ _ w e1) in
    let (g, key_der, key_there, key_pem, key_parsed) =
      load_ca_key-ok env key_path w1 (wrap-eq-ok _ _ w1 e2) in
    let key_loaded : KeyLoadedFrom env key_path w ca_key =
      (g, key_der, sym same_key ∙ key_there, key_pem, key_parsed) in
    let there_2 =
      stays path (load_ca_key env _) w1 (load_ca_key-FileIs env _) there_1 (wrap-eq-ok _ _ w1 e2) in
    let (pems, w3, e3, d3) = >>=-eq-ok _ _ w2 d2 in
    let there_3 =
      stays path (generate_client_cert env name ca_cert ca_key) w2
        (generate_client_cert-FileIs env name ca_cert ca_key) there_2 (wrap-eq-ok _ _ w2 e3) in
    let issued = generate_client_cert-ok env name ca_cert ca_key w2 (wrap-eq-ok _ _ w2 e3) in
    let (bytes, marshalled, written) =
      finish-ok env codec m filename (record kc { users = embed codec pems u ∷ us }) f w3 real
        there_3 d3 in
    (
      ca_cert,
      ca_key,
      pems,
      w2.calls,
      loaded,
      key_loaded,
      issued,
      (f, kc, u, us, bytes, there, decoded, is_us, marshalled, written),
    )

renew_read-ok :
    (env : Env) (codec : Codec) (m : Manager) (filename name : String) (bytes : Bytes) (f : File)
    (w : World) {w' : World}
    → m.dry_run ≡ false
    → w.files (m.kubeconfig_dir ++ (filename ∷ [])) ≡ some f
    → f.content ≡ bytes
    → renew_read env codec m filename name (inr bytes) w ≡ (ok tt, w')
    → Renewed env codec m name (m.kubeconfig_dir ++ (filename ∷ [])) w w'
unfolding renew_read
renew_read-ok env codec m filename name bytes f w real there is_content done =
    let (kc, w1, e1, d1) = >>=-eq-ok _ _ w done in
    let (decoded, same) = lift-ok (codec.unmarshal bytes) w (wrap-eq-ok _ _ w e1) in
    renew_users-ok env codec m filename name kc kc.users f w real refl there
      (ap codec.unmarshal is_content ∙ decoded)
      (ap (renew_users env codec m filename name kc kc.users) same ∙ d1)

-- The two ways in which a renewal ends without an error.
abbrev pub Outcome : Env → Codec → Manager → String → FilePath → World → World → Type 0
Outcome env codec m name path w w' =
    ((w.files path ≡ none) × (w'.files ≡ w.files)) ⊎ Renewed env codec m name path w w'

skipped :
    (env : Env) (codec : Codec) (m : Manager) (filename name s : String) (w : World) {w' : World}
    → renew_read env codec m filename name (inl (not_exist s)) w ≡ (ok tt, w')
    → w ≡ w'
unfolding renew_read pure
skipped env codec m filename name s w done = cc

not_skipped :
    (env : Env) (codec : Codec) (m : Manager) (filename name : String) (e : Error) (w : World)
    {w' : World}
    → ((s : String) → e ≢ not_exist s)
    → renew_read env codec m filename name (inl e) w ≡ (ok tt, w')
    → ⊥
unfolding renew_read fail
not_skipped env codec m filename name (not_exist s) w ne done = ne s refl
not_skipped env codec m filename name (message s) w ne done = cc
not_skipped env codec m filename name (wrapped s e) w ne done = cc

on_read-ok :
    (env : Env) (codec : Codec) (m : Manager) (filename name : String) (r : Error ⊎ Bytes)
    (w w1 : World) {w' : World}
    → m.dry_run ≡ false
    → attempt (read_file env (m.kubeconfig_dir ++ (filename ∷ []))) w ≡ (ok r, w1)
    → renew_read env codec m filename name r w1 ≡ (ok tt, w')
    → Outcome env codec m name (m.kubeconfig_dir ++ (filename ∷ [])) w w'
on_read-ok env codec m filename name (inl (not_exist s)) w w1 real tried done =
    let (missing, kept) = read_file-not_exist env _ w tried in
    inl (missing, ap World.files (sym (skipped env codec m filename name s w1 done)) ∙ kept)
on_read-ok env codec m filename name (inl (message s)) w w1 real tried done =
    elim (not_skipped env codec m filename name (message s) w1 (λ t. cc) done) [ ]
on_read-ok env codec m filename name (inl (wrapped s e)) w w1 real tried done =
    elim (not_skipped env codec m filename name (wrapped s e) w1 (λ t. cc) done) [ ]
on_read-ok env codec m filename name (inr bytes) w w1 real tried done =
    let path = m.kubeconfig_dir ++ (filename ∷ []) in
    let (f, there, is_content, kept) = read_file-ok env path w (attempt-inr _ w tried) in
    inr (
      rw kept at (
        renew_read-ok env codec m filename name bytes f w1 real (ap (λ fs. fs path) kept ∙ there)
          is_content done))

pub renew-ok :
    (env : Env) (codec : Codec) (m : Manager) (filename name : String) (w w' : World)
    → m.dry_run ≡ false
    → renew env codec m filename name w ≡ (ok tt, w')
    → Outcome env codec m name (m.kubeconfig_dir ++ (filename ∷ [])) w w'
unfolding renew
renew-ok env codec m filename name w w' real done =
    let (r, w1, e1, d1) = >>=-eq-ok _ _ w done in
    on_read-ok env codec m filename name r w w1 real e1 d1
