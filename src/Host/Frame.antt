-- ===== src/Host/Frame.antt =====
-- Calls that leave a file as it is.
use cert_rotator.Base.{
  ℕ, String, ◌≡◌, ◌≢◌, false, List, [], ◌∷◌, ◌++◌, Option, none, some, ◌⊎◌, inl, inr, string_eq,
  arith,
}
use cert_rotator.Base.Dict.{Dict}
use cert_rotator.Api.{FilePath, CertRotationConfigStatus}
use cert_rotator.Host.Types.{Bytes, Error, Env, File, World, Event, Fault, refused, torn}
use cert_rotator.Host.Monad.{
  Exec, pure, fail, now, next_call, emit, modify_status, range_map, ◌>>=◌,
}
use cert_rotator.Host.Files.{
  is_prefix, stat, read_file, mkdir_all, write_file, open_truncated, io_copy, fallible, guarded,
  look_up, make_dirs, put_file, write_with, content_of,
}
use cert_rotator.Host.Network.{
  sleep, dial, http_get, send_mail, http_post, patch_status, get_config, or_fail, store_reply,
}
use cert_rotator.Host.Keeps.{Keeps, Keeps-bind, Keeps-bind_at, keeps_rules}

-- The file at `q` is `x`.
pub record FileIs (q : FilePath) (x : Option File) (w : World) : Type 0 where
  pub same : w.files q ≡ x

-- A path that is not below `d` is no path below `d`.
pub append-ne : (d p q : FilePath) → is_prefix d q ≡ false → d ++ p ≢ q
append-ne [] p q h = cc
append-ne (c ∷ d) p [] h = cc
append-ne (c ∷ d) p (e ∷ q) h = ground (arith, append-ne d p q)

module _ {q : FilePath} {x : Option File} where
  pub next_call-FileIs : Keeps (FileIs q x) next_call
  unfolding next_call
  next_call-FileIs = record { at = λ w h. record { same = h.same } }

  pub emit-FileIs : (e : Event) → Keeps (FileIs q x) (emit e)
  unfolding emit
  emit-FileIs e = record { at = λ w h. record { same = h.same } }

  pub modify_status-FileIs :
      (f : CertRotationConfigStatus → CertRotationConfigStatus)
      → Keeps (FileIs q x) (modify_status f)
  unfolding modify_status
  modify_status-FileIs f = record { at = λ w h. record { same = h.same } }

  look_up-FileIs : (p : FilePath) → Keeps (FileIs q x) (look_up p)
  unfolding look_up pure fail
  look_up-FileIs p = record { at = λ w h. record { same = ground arith } }

  make_dirs-FileIs : (p : FilePath) → Keeps (FileIs q x) (make_dirs p)
  unfolding make_dirs
  make_dirs-FileIs p = record { at = λ w h. record { same = h.same } }

  guarded-FileIs :
      {A : Type 0} (f : Option Fault) (m : Exec A)
      → Keeps (FileIs q x) m
      → Keeps (FileIs q x) (guarded f m)
  guarded-FileIs none m k = k
  guarded-FileIs (some (refused s)) m k = search keeps_rules
  guarded-FileIs (some (torn s b)) m k = search keeps_rules

  fallible-FileIs :
      {A : Type 0} (env : Env) (m : Exec A)
      → Keeps (FileIs q x) m
      → Keeps (FileIs q x) (fallible env m)
  unfolding fallible
  fallible-FileIs env m k = search (keeps_rules, next_call-FileIs, guarded-FileIs)

  pub stat-FileIs : (env : Env) (p : FilePath) → Keeps (FileIs q x) (stat env p)
  unfolding stat
  stat-FileIs env p = fallible-FileIs env (look_up p) (look_up-FileIs p)

  pub read_file-FileIs : (env : Env) (p : FilePath) → Keeps (FileIs q x) (read_file env p)
  unfolding read_file
  read_file-FileIs env p = search (keeps_rules, stat-FileIs)

  pub mkdir_all-FileIs : (env : Env) (p : FilePath) → Keeps (FileIs q x) (mkdir_all env p)
  unfolding mkdir_all
  mkdir_all-FileIs env p = fallible-FileIs env (make_dirs p) (make_dirs-FileIs p)

  put_file-FileIs :
      (p : FilePath) (bytes : Bytes) (mode : ℕ) → p ≢ q → Keeps (FileIs q x) (put_file p bytes mode)
  unfolding put_file fail
  put_file-FileIs p bytes mode ne = record { at = λ w h. record { same = ground (arith, h.same) } }

  write_with-FileIs :
      (f : Option Fault) (p : FilePath) (bytes : Bytes) (mode : ℕ)
      → p ≢ q
      → Keeps (FileIs q x) (write_with f p bytes mode)
  unfolding write_with
  write_with-FileIs none p bytes mode ne = put_file-FileIs p bytes mode ne
  write_with-FileIs (some (refused s)) p bytes mode ne = search keeps_rules
  write_with-FileIs (some (torn s part)) p bytes mode ne =
      search (keeps_rules, put_file-FileIs p part mode ne)

  pub write_file-FileIs :
      (env : Env) (p : FilePath) (bytes : Bytes) (mode : ℕ)
      → p ≢ q
      → Keeps (FileIs q x) (write_file env p bytes mode)
  unfolding write_file
  write_file-FileIs env p bytes mode ne = search (keeps_rules, next_call-FileIs, write_with-FileIs)

  pub open_truncated-FileIs :
      (env : Env) (p : FilePath) (mode : ℕ) → p ≢ q → Keeps (FileIs q x) (open_truncated env p mode)
  unfolding open_truncated
  open_truncated-FileIs env p mode ne = search (fallible-FileIs, put_file-FileIs)

  pub io_copy-FileIs :
      (env : Env) (dst src : FilePath) → dst ≢ q → Keeps (FileIs q x) (io_copy env dst src)
  unfolding io_copy write_with ◌>>=◌ next_call
  io_copy-FileIs env dst src ne = record {
    at = λ w h.
        (write_with-FileIs (env.fault w.calls) dst (content_of (w.files src)) 0 ne).at _
          (record { same = h.same });
  }

  pub sleep-FileIs : (n : ℕ) → Keeps (FileIs q x) (sleep n)
  unfolding sleep
  sleep-FileIs n = emit-FileIs _

  or_fail-FileIs : (e : Option Error) → Keeps (FileIs q x) (or_fail e)
  or_fail-FileIs none = search keeps_rules
  or_fail-FileIs (some e) = search keeps_rules

  pub dial-FileIs : (env : Env) (addr : String) → Keeps (FileIs q x) (dial env addr)
  unfolding dial
  dial-FileIs env addr = search (keeps_rules, next_call-FileIs, emit-FileIs, or_fail-FileIs)

  pub http_get-FileIs : (env : Env) (url : String) → Keeps (FileIs q x) (http_get env url)
  unfolding http_get
  http_get-FileIs env url = search (keeps_rules, next_call-FileIs, emit-FileIs)

  pub send_mail-FileIs :
      (env : Env) (addr : String) (to : List String) (msg : String)
      → Keeps (FileIs q x) (send_mail env addr to msg)
  unfolding send_mail
  send_mail-FileIs env addr to msg =
      search (keeps_rules, next_call-FileIs, emit-FileIs, or_fail-FileIs)

  pub http_post-FileIs :
      (env : Env) (url body : String) → Keeps (FileIs q x) (http_post env url body)
  unfolding http_post
  http_post-FileIs env url body = search (keeps_rules, next_call-FileIs, emit-FileIs)

  store_reply-FileIs : (r : Error ⊎ CertRotationConfigStatus) → Keeps (FileIs q x) (store_reply r)
  store_reply-FileIs (inl e) = search keeps_rules
  store_reply-FileIs (inr s) = search (keeps_rules, modify_status-FileIs, emit-FileIs)

  pub patch_status-FileIs :
      (env : Env) (before : CertRotationConfigStatus) → Keeps (FileIs q x) (patch_status env before)
  unfolding patch_status ◌>>=◌ next_call
  patch_status-FileIs env before = record {
    at = λ w h.
        (store_reply-FileIs (env.patch w.calls before w.status)).at _ (record { same = h.same });
  }

  pub get_config-FileIs : (env : Env) → Keeps (FileIs q x) (get_config env)
  unfolding get_config
  get_config-FileIs env = search (keeps_rules, next_call-FileIs)

  pub now-FileIs : (env : Env) → Keeps (FileIs q x) (now env)
  unfolding now
  now-FileIs env = search (keeps_rules, next_call-FileIs)

  pub range_map-FileIs :
      {V : Type 0} (env : Env) (m : Dict V) → Keeps (FileIs q x) (range_map env m)
  unfolding range_map
  range_map-FileIs env m = search (keeps_rules, next_call-FileIs)

pub ruleset file_rules = (
  keeps_rules, next_call-FileIs, emit-FileIs, modify_status-FileIs, stat-FileIs, read_file-FileIs,
  mkdir_all-FileIs, write_file-FileIs, open_truncated-FileIs, io_copy-FileIs, sleep-FileIs,
  dial-FileIs, http_get-FileIs, send_mail-FileIs, http_post-FileIs, patch_status-FileIs,
  get_config-FileIs, now-FileIs, range_map-FileIs, append-ne,
)
