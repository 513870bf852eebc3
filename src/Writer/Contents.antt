-- ===== src/Writer/Contents.antt =====
-- What the writer leaves in the PKI directory.
use cert_rotator.Base.{ℕ, String, ◌<>◌, false, ◌++◌, some, path_eq, ◌≡◌, ◌≢◌, refl, sym, ◌∙◌, arith}
use cert_rotator.Api.{FilePath}
use cert_rotator.Host.{
  Env, Bytes, World, ok, wrap, path_text, mode_of, dir, write_file, mkdir_all, ◌>>◌,
}
use cert_rotator.Host.Frame.{FileIs, file_rules}
use cert_rotator.Host.Written.{write_file_writes, mkdir_same}
use cert_rotator.Host.Inversion.{>>=-eq-ok, wrap-eq-ok, Keeps-eq}
use cert_rotator.Writer.{Writer, write_below, write_cert, write_key, write_cert_key_pair}

write_below_real :
    (env : Env) (m : Writer) (what : String) (p : FilePath) (bytes : Bytes) (mode : ℕ) (w : World)
    {w' : World}
    → m.dry_run ≡ false
    → write_below env m what p bytes mode w ≡ (ok tt, w')
    → (wrap ("creating dir for " <> path_text p) (mkdir_all env (dir p))
          >> wrap ("writing " <> what <> " " <> path_text p) (write_file env p bytes mode))
        w
      ≡ (ok tt, w')
unfolding write_below
write_below_real env m what p bytes mode w real done = ground (arith, real, done)

write_below_writes :
    (env : Env) (m : Writer) (what : String) (p : FilePath) (bytes : Bytes) (mode : ℕ) (w : World)
    {w' : World}
    → m.dry_run ≡ false
    → write_below env m what p bytes mode w ≡ (ok tt, w')
    → w'.files p ≡ some (record { content = bytes; mode = mode_of (w.files p) mode })
write_below_writes env m what p bytes mode w real done =
    let (_, w1, e1, e2) = >>=-eq-ok _ _ w (write_below_real env m what p bytes mode w real done) in
    rw (mkdir_same env _ (dir p) p w e1) at
      (write_file_writes env p bytes mode w1 (wrap-eq-ok _ _ w1 e2))

-- A write leaves the other paths alone.
write_below_other :
    (env : Env) (m : Writer) (what : String) (p q : FilePath) (bytes : Bytes) (mode : ℕ) (w : World)
    {w' : World}
    → p ≢ q
    → write_below env m what p bytes mode w ≡ (ok tt, w')
    → w'.files q ≡ w.files q
unfolding write_below
write_below_other env m what p q bytes mode w ne done =
    (Keeps-eq (FileIs q (w.files q)) (write_below env m what p bytes mode) w (search file_rules)
      (record { same = refl }) done).same

-- If a pair is written to two different paths without an error, and not in a dry run, both files
-- hold what was to be written. A new file has the mode 0644, or 0600 for the key; a file that was
-- there before keeps the mode that it had.
pub write_cert_key_pair_lem :
    (env : Env) (m : Writer) (rel_cert rel_key : FilePath) (cert key : Bytes) (w w' : World)
    → m.dry_run ≡ false
    → m.pki_dir ++ rel_cert ≢ m.pki_dir ++ rel_key
    → write_cert_key_pair env m rel_cert rel_key cert key w ≡ (ok tt, w')
    → (w'.files (m.pki_dir ++ rel_cert)
        ≡ some (record { content = cert; mode = mode_of (w.files (m.pki_dir ++ rel_cert)) 0o644 }))
      × (w'.files (m.pki_dir ++ rel_key)
          ≡ some (record { content = key; mode = mode_of (w.files (m.pki_dir ++ rel_key)) 0o600 }))
unfolding write_cert_key_pair write_cert write_key
write_cert_key_pair_lem env m rel_cert rel_key cert key w w' real ne done =
    let (_, w1, e1, e2) = >>=-eq-ok _ _ w done in
    let p = m.pki_dir ++ rel_cert in
    let q = m.pki_dir ++ rel_key in
    (
      write_below_other env m "key" q p key 0o600 w1 (λ e. ne (sym e)) e2
          ∙ write_below_writes env m "cert" p cert 0o644 w real e1,
      rw (write_below_other env m "cert" p q cert 0o644 w ne e1) at
          (write_below_writes env m "key" q key 0o600 w1 real e2),
    )
