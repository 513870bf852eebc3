-- ===== src/Writer/Frame.antt =====
-- What the writer leaves alone: the files outside the PKI directory, and those it is not to write.
use cert_rotator.Base.{◌++◌, ◌≢◌, false, ◌≡◌, Option}
use cert_rotator.Api.{FilePath}
use cert_rotator.Host.{Env, Bytes, File, is_prefix}
use cert_rotator.Host.Keeps.{Keeps}
use cert_rotator.Host.Frame.{FileIs, file_rules}
use cert_rotator.Writer.{Writer, write_below, write_cert, write_key, write_cert_key_pair}

module _ {q : FilePath} {x : Option File} (env : Env) (w : Writer)
    (outside : is_prefix w.pki_dir q ≡ false) where
  write_cert-FileIs :
      (rel : FilePath) (bytes : Bytes) → Keeps (FileIs q x) (write_cert env w rel bytes)
  unfolding write_cert write_below
  write_cert-FileIs rel bytes = search file_rules

  write_key-FileIs :
      (rel : FilePath) (bytes : Bytes) → Keeps (FileIs q x) (write_key env w rel bytes)
  unfolding write_key write_below
  write_key-FileIs rel bytes = search file_rules

  pub write_cert_key_pair-FileIs :
      (rel_cert rel_key : FilePath) (cert key : Bytes)
      → Keeps (FileIs q x) (write_cert_key_pair env w rel_cert rel_key cert key)
  unfolding write_cert_key_pair
  write_cert_key_pair-FileIs rel_cert rel_key cert key =
      search (file_rules, write_cert-FileIs, write_key-FileIs)

-- A pair is written to its two files only.
pub write_cert_key_pair-apart :
    (q : FilePath) {x : Option File} (env : Env) (w : Writer) (rel_cert rel_key : FilePath)
    (cert key : Bytes)
    → w.pki_dir ++ rel_cert ≢ q
    → w.pki_dir ++ rel_key ≢ q
    → Keeps (FileIs q x) (write_cert_key_pair env w rel_cert rel_key cert key)
unfolding write_cert_key_pair write_cert write_key write_below
write_cert_key_pair-apart q env w rel_cert rel_key cert key not_cert not_key =
    search file_rules depth 8
