-- ===== src/Host/Calm.antt =====
-- Calls that panic at no other place than a store into a nil map, and there only for a cause.
use cert_rotator.Base.{
  ℕ, String, ◌≡◌, refl, Bool, true, false, Option, none, some, ◌⊎◌, inl, inr, if◌then◌else◌, arith,
}
use cert_rotator.Api.{FilePath}
use cert_rotator.Host.Types.{Bytes, Error, Event, Fault, refused, torn, File, World, Env}
use cert_rotator.Host.Monad.{
  Result, ok, err, panic, Exec, pure, fail, crash, wrap, attempt, lift, now, next_call, emit, ◌>>=◌,
}
use cert_rotator.Host.Files.{
  existing, look_up, guarded, fallible, stat, read_file, make_dirs, mkdir_all, put_file, write_with,
  write_file, open_truncated, content_of, io_copy,
}
use cert_rotator.Host.Ensures.{OnOk, Ensures, Ensures-any}
use cert_rotator.Host.Network.{sleep, or_fail, dial, http_get}

abbrev pub nil_map : String
nil_map = "assignment to entry in nil map"

abbrev pub NoPanic : {A : Type 0} → Type 0 → Result A → Type 0
NoPanic Cause (ok a) = Unit
NoPanic Cause (err e) = Unit
NoPanic Cause (panic s) = Cause × (s ≡ nil_map)

pub record Calm {A : Type 0} (Cause : Type 0) (m : Exec A) : Type 0 where
  pub at : (w : World) → NoPanic Cause (m w).0

-- What follows may rely on where the value came from.
pub Ensures-lift : {A : Type 0} (r : Error ⊎ A) → Ensures (λ a. r ≡ inr a) (lift r)
unfolding lift
Ensures-lift (inl e) = record { at = λ w. tt }
Ensures-lift (inr a) = record { at = λ w. refl }

module _ {A : Type 0} where
  wrap_at :
      (Cause : Type 0) (s : String) (r : Result A) (w : World)
      → NoPanic Cause r
      → NoPanic Cause (wrap s (λ _. (r, w)) w).0
  unfolding wrap
  wrap_at _ s (ok a) w h = h
  wrap_at _ s (err e) w h = h
  wrap_at _ s (panic t) w h = h

  attempt_at :
      (Cause : Type 0) (r : Result A) (w : World)
      → NoPanic Cause r
      → NoPanic Cause (attempt (λ _. (r, w)) w).0
  unfolding attempt
  attempt_at _ (ok a) w h = h
  attempt_at _ (err e) w h = h
  attempt_at _ (panic s) w h = h

module _ {A : Type 0} {Cause : Type 0} where
  pub Calm-pure : (a : A) → Calm Cause (pure a)
  unfolding pure
  Calm-pure a = record { at = λ w. tt }

  pub Calm-fail : (e : Error) → Calm Cause (fail {A = A} e)
  unfolding fail
  Calm-fail e = record { at = λ w. tt }

  pub Calm-crash : Cause → Calm Cause (crash {A = A} nil_map)
  unfolding crash
  Calm-crash cause = record { at = λ w. (cause, refl) }

  pub Calm-lift : (r : Error ⊎ A) → Calm Cause (lift r)
  unfolding lift
  Calm-lift (inl e) = record { at = λ w. tt }
  Calm-lift (inr a) = record { at = λ w. tt }

  pub Calm-wrap : (s : String) (m : Exec A) → Calm Cause m → Calm Cause (wrap s m)
  unfolding wrap
  Calm-wrap s m k = record { at = λ w. let (r, w') = m w in wrap_at Cause s r w' (k.at w) }

  pub Calm-attempt : (m : Exec A) → Calm Cause m → Calm Cause (attempt m)
  unfolding attempt
  Calm-attempt m k = record { at = λ w. let (r, w') = m w in attempt_at Cause r w' (k.at w) }

  pub Calm-if :
      (b : Bool) (m n : Exec A) → Calm Cause m → Calm Cause n → Calm Cause (if b then m else n)
  Calm-if true m n km kn = km
  Calm-if false m n km kn = kn

module _ {A B : Type 0} {Cause : Type 0} where
  bind_at :
      {V : A → Type 0} (r : Result A) (w : World) (f : A → Exec B)
      → NoPanic Cause r
      → OnOk V r
      → ((a : A) → V a → Calm Cause (f a))
      → NoPanic Cause (((λ _. (r, w)) >>= f) w).0
  unfolding ◌>>=◌
  bind_at (ok a) w f calm h k = (k a h).at w
  bind_at (err e) w f calm h k = tt
  bind_at (panic s) w f calm h k = calm

  -- What follows may rely on what holds of the value.
  pub Calm-ensured :
      {V : A → Type 0} (m : Exec A) (f : A → Exec B)
      → Calm Cause m
      → Ensures V m
      → ((a : A) → V a → Calm Cause (f a))
      → Calm Cause (m >>= f)
  unfolding ◌>>=◌
  Calm-ensured m f km e kf = record {
    at = λ w. let (r, w') = m w in bind_at r w' f (km.at w) (e.at w) kf;
  }

  pub Calm-bind :
      (m : Exec A) (f : A → Exec B)
      → Calm Cause m
      → ((a : A) → Calm Cause (f a))
      → Calm Cause (m >>= f)
  Calm-bind m f km kf = Calm-ensured m f km (Ensures-any m) (λ a _. kf a)

module _ {Cause : Type 0} where
  pub Calm-next_call : Calm Cause next_call
  unfolding next_call
  Calm-next_call = record { at = λ w. tt }

  pub Calm-emit : (e : Event) → Calm Cause (emit e)
  unfolding emit
  Calm-emit e = record { at = λ w. tt }

  pub Calm-now : (env : Env) → Calm Cause (now env)
  unfolding now
  Calm-now env = Calm-bind _ _ Calm-next_call (λ n. Calm-pure _)

module _ {A : Type 0} {Cause : Type 0} where
  guarded-Calm : (fault : Option Fault) (m : Exec A) → Calm Cause m → Calm Cause (guarded fault m)
  guarded-Calm none m k = k
  guarded-Calm (some (refused s)) m k = Calm-fail _
  guarded-Calm (some (torn s bytes)) m k = Calm-fail _

  fallible-Calm : (env : Env) (m : Exec A) → Calm Cause m → Calm Cause (fallible env m)
  unfolding fallible
  fallible-Calm env m k = Calm-bind _ _ Calm-next_call (λ n. guarded-Calm (env.fault n) m k)

module _ {Cause : Type 0} where
  existing-Calm : (p : FilePath) (x : Option File) → Calm Cause (existing p x)
  existing-Calm p none = Calm-fail _
  existing-Calm p (some f) = Calm-pure f

  pub stat-Calm : (env : Env) (p : FilePath) → Calm Cause (stat env p)
  unfolding stat look_up
  stat-Calm env p = fallible-Calm env _ (record { at = λ w. (existing-Calm p (w.files p)).at w })

  pub read_file-Calm : (env : Env) (p : FilePath) → Calm Cause (read_file env p)
  unfolding read_file
  read_file-Calm env p = Calm-bind _ _ (stat-Calm env p) (λ f. Calm-pure _)

  pub mkdir_all-Calm : (env : Env) (p : FilePath) → Calm Cause (mkdir_all env p)
  unfolding mkdir_all make_dirs
  mkdir_all-Calm env p = fallible-Calm env _ (record { at = λ w. tt })

  put_file-Calm : (p : FilePath) (bytes : Bytes) (mode : ℕ) → Calm Cause (put_file p bytes mode)
  unfolding put_file fail
  put_file-Calm p bytes mode = record { at = λ w. ground arith }

  write_with-Calm :
      (fault : Option Fault) (p : FilePath) (bytes : Bytes) (mode : ℕ)
      → Calm Cause (write_with fault p bytes mode)
  unfolding write_with
  write_with-Calm none p bytes mode = put_file-Calm p bytes mode
  write_with-Calm (some (refused s)) p bytes mode = Calm-fail _
  write_with-Calm (some (torn s part)) p bytes mode =
      Calm-bind _ _ (put_file-Calm p part mode) (λ _. Calm-fail _)

  pub write_file-Calm :
      (env : Env) (p : FilePath) (bytes : Bytes) (mode : ℕ)
      → Calm Cause (write_file env p bytes mode)
  unfolding write_file
  write_file-Calm env p bytes mode =
      Calm-bind _ _ Calm-next_call (λ n. write_with-Calm (env.fault n) p bytes mode)

  pub open_truncated-Calm :
      (env : Env) (p : FilePath) (mode : ℕ) → Calm Cause (open_truncated env p mode)
  unfolding open_truncated
  open_truncated-Calm env p mode = fallible-Calm env _ (put_file-Calm p _ mode)

  pub io_copy-Calm : (env : Env) (dst src : FilePath) → Calm Cause (io_copy env dst src)
  unfolding io_copy
  io_copy-Calm env dst src = Calm-bind _ _ Calm-next_call λ n. record {
    at = λ w. (write_with-Calm (env.fault n) dst (content_of (w.files src)) 0).at w;
  }

  pub sleep-Calm : (seconds : ℕ) → Calm Cause (sleep seconds)
  unfolding sleep
  sleep-Calm seconds = Calm-emit _

  or_fail-Calm : (e : Option Error) → Calm Cause (or_fail e)
  or_fail-Calm none = Calm-pure tt
  or_fail-Calm (some e) = Calm-fail e

  pub dial-Calm : (env : Env) (addr : String) → Calm Cause (dial env addr)
  unfolding dial
  dial-Calm env addr =
      Calm-bind _ _ Calm-next_call
        λ n. Calm-bind _ _ (Calm-emit _) λ _. or_fail-Calm (env.dial n addr)

  pub http_get-Calm : (env : Env) (url : String) → Calm Cause (http_get env url)
  unfolding http_get
  http_get-Calm env url =
      Calm-bind _ _ Calm-next_call λ n. Calm-bind _ _ (Calm-emit _) λ _. Calm-lift _

pub ruleset calm_rules = (
  Calm-pure, Calm-fail, Calm-crash, Calm-lift, Calm-wrap, Calm-attempt, Calm-if, Calm-bind,
  Calm-next_call, Calm-emit, Calm-now, stat-Calm, read_file-Calm, mkdir_all-Calm, write_file-Calm,
  open_truncated-Calm, io_copy-Calm, sleep-Calm, dial-Calm, http_get-Calm,
)
