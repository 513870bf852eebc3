-- ===== src/Writer/Verified.antt =====
-- What a verification that ends well says of the PKI directory.
use cert_rotator.Base.{
  ℕ, String, true, List, [], ◌∷◌, ◌++◌, some, contains, inl, inr, ◌≡◌, ◌≢◌, ap, sym, ◌∙◌, string_eq,
}
use cert_rotator.Base.Dict.{keys, lookup, select}
use cert_rotator.Base.Dict.Visited.{Listed, select-Listed}
use cert_rotator.Api.{FilePath}
use cert_rotator.Host.{Env, Bytes, World, File, ok, pure, fail, range_map, next_call, ◌>>=◌}
use cert_rotator.Host.Inversion.{>>=-eq-ok, wrap-eq-ok}
use cert_rotator.Host.Written.{stat-ok}
use cert_rotator.Writer.{Writer, cert_paths, expect_content, verify_file, verify_each, verify}

-- There is a file at the path, and it is not empty.
abbrev pub Present : FilePath → World → Type 0
Present path w = (f : File) × (w.files path ≡ some f) × (f.content ≢ [])

expect_content-ok :
    (name : String) (path : FilePath) (bytes : Bytes) (w : World) {w' : World}
    → expect_content name path bytes w ≡ (ok tt, w')
    → (bytes ≢ []) × (w ≡ w')
unfolding expect_content pure fail
expect_content-ok name path [] w done = cc
expect_content-ok name path (b ∷ bytes) w done = (cc, cc)

verify_file-ok :
    (env : Env) (name : String) (path : FilePath) (w : World) {w' : World}
    → verify_file env name path w ≡ (ok tt, w')
    → Present path w × (w'.files ≡ w.files)
unfolding verify_file
verify_file-ok env name path w done =
    let (f, w1, e1, d1) = >>=-eq-ok _ _ w done in
    let (there, kept) = stat-ok env path w (wrap-eq-ok _ _ w e1) in
    let (filled, same) = expect_content-ok name path f.content w1 d1 in
    ((f, there, filled), ap World.files (sym same) ∙ kept)

-- A file that is there with the same files is there.
Present-same :
    (path : FilePath) (w1 w : World) → w1.files ≡ w.files → Present path w1 → Present path w
Present-same path w1 w same (f, there, filled) = (f, ap (λ fs. fs path) (sym same) ∙ there, filled)

verify_each-ok :
    (env : Env) (m : Writer) (name : String) (cert key : FilePath)
    (entries : List (String × (FilePath × FilePath))) (w : World) {w' : World}
    → Listed name (cert, key) entries
    → verify_each env m entries w ≡ (ok tt, w')
    → Present (m.pki_dir ++ cert) w × Present (m.pki_dir ++ key) w
unfolding verify_each
verify_each-ok env m name cert key [] w listed done = elim listed [ ]
verify_each-ok env m name cert key ((n, (c, k)) ∷ entries) w listed done =
    let (_, w1, e1, d1) = >>=-eq-ok _ _ w done in
    let (has_cert, kept_1) = verify_file-ok env n (m.pki_dir ++ c) w e1 in
    let (_, w2, e2, d2) = >>=-eq-ok _ _ w1 d1 in
    let (has_key, kept_2) = verify_file-ok env n (m.pki_dir ++ k) w1 e2 in
    elim listed [
      | inl (_, same) ↦ (
        rw (ap (λ pair. pair.0) same) at has_cert,
        Present-same (m.pki_dir ++ key) w1 w kept_1 (rw (ap (λ pair. pair.1) same) at has_key),
      )
      | inr later ↦
          let (cert_there, key_there) = verify_each-ok env m name cert key entries w2 later d2 in
          (
            Present-same (m.pki_dir ++ cert) w2 w (kept_2 ∙ kept_1) cert_there,
            Present-same (m.pki_dir ++ key) w2 w (kept_2 ∙ kept_1) key_there,
          )
    ]

range_map-ok :
    (env : Env) (w : World) {entries : List (String × (FilePath × FilePath))} {w' : World}
    → range_map env cert_paths w ≡ (ok entries, w')
    → (select (env.order w.calls (keys cert_paths)) cert_paths ≡ entries) × (w'.files ≡ w.files)
unfolding range_map next_call pure ◌>>=◌
range_map-ok env w done = (cc, cc)

-- If a verification ends without an error, the certificate and the key of each name that the
-- writer has paths for are there below the PKI directory, and neither is empty. The condition: the
-- loop over the map visits the name.
pub verify-ok :
    (env : Env) (m : Writer) (name : String) (cert key : FilePath) (w w' : World)
    → ((n : ℕ) → contains name (env.order n (keys cert_paths)) ≡ true)
    → lookup name cert_paths ≡ some (cert, key)
    → verify env m w ≡ (ok tt, w')
    → Present (m.pki_dir ++ cert) w × Present (m.pki_dir ++ key) w
unfolding verify
verify-ok env m name cert key w w' visits known done =
    let (entries, w1, e1, d1) = >>=-eq-ok _ _ w done in
    let (are, kept) = range_map-ok env w e1 in
    let listed : Listed name (cert, key) entries = rw are at (
      select-Listed {V = FilePath × FilePath} name (cert, key) _ cert_paths (visits w.calls)
        known) in
    let (has_cert, has_key) = verify_each-ok env m name cert key entries w1 listed d1 in
    (
      Present-same (m.pki_dir ++ cert) w1 w kept has_cert,
      Present-same (m.pki_dir ++ key) w1 w kept has_key,
    )
