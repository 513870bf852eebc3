-- ===== src/Host/Ensures.antt =====
-- What holds of the value of a call that returns one, with a rule for each way to build a call.
use mathlib.Core.Path.{subst}
use cert_rotator.Base.{refl, String, ◌≡◌, Bool, true, false, if◌then◌else◌}
use cert_rotator.Host.Types.{Error, World}
use cert_rotator.Host.Monad.{Result, ok, err, panic, Exec, pure, fail, crash, wrap, ◌>>=◌}

abbrev pub OnOk : {A : Type 0} → (A → Type 0) → Result A → Type 0
OnOk Q (ok a) = Q a
OnOk Q (err e) = Unit
OnOk Q (panic s) = Unit

pub record Ensures {A : Type 0} (Q : A → Type 0) (m : Exec A) : Type 0 where
  pub at : (w : World) → OnOk Q (m w).0

wrap_at :
    {A : Type 0} (Q : A → Type 0) (s : String) (r : Result A) (w : World)
    → OnOk Q r
    → OnOk Q (wrap s (λ _. (r, w)) w).0
unfolding wrap
wrap_at Q s (ok a) w h = h
wrap_at Q s (err e) w h = tt
wrap_at Q s (panic t) w h = tt

module _ {A : Type 0} {Q : A → Type 0} where
  pub Ensures-pure : (a : A) → Q a → Ensures Q (pure a)
  unfolding pure
  Ensures-pure a h = record { at = λ w. h }

  pub Ensures-fail : (e : Error) → Ensures Q (fail e)
  unfolding fail
  Ensures-fail e = record { at = λ w. tt }

  pub Ensures-crash : (s : String) → Ensures Q (crash s)
  unfolding crash
  Ensures-crash s = record { at = λ w. tt }

  pub Ensures-wrap : (s : String) (m : Exec A) → Ensures Q m → Ensures Q (wrap s m)
  unfolding wrap
  Ensures-wrap s m k = record { at = λ w. let (r, w') = m w in wrap_at Q s r w' (k.at w) }

  pub Ensures-if :
      (test : Bool) (here there : Exec A)
      → (test ≡ true → Ensures Q here)
      → (test ≡ false → Ensures Q there)
      → Ensures Q (if test then here else there)
  Ensures-if false here there on_true on_false = on_false refl
  Ensures-if true here there on_true on_false = on_true refl

module _ {A : Type 0} where
  ok_anything : (r : Result A) → OnOk (λ _. Unit {0}) r
  ok_anything (ok a) = tt
  ok_anything (err e) = tt
  ok_anything (panic s) = tt

  -- Nothing need be known of the value.
  pub Ensures-any : (m : Exec A) → Ensures (λ _. Unit {0}) m
  Ensures-any m = record { at = λ w. ok_anything (m w).0 }

module _ {A B : Type 0} {Q : A → Type 0} {R : B → Type 0} where
  bind_at :
      (r : Result A) (w : World) (f : A → Exec B)
      → OnOk Q r
      → ((a : A) → Q a → Ensures R (f a))
      → OnOk R (((λ _. (r, w)) >>= f) w).0
  unfolding ◌>>=◌
  bind_at (ok a) w f h k = (k a h).at w
  bind_at (err e) w f h k = tt
  bind_at (panic s) w f h k = tt

  pub Ensures-bind :
      (m : Exec A) (f : A → Exec B)
      → Ensures Q m
      → ((a : A) → Q a → Ensures R (f a))
      → Ensures R (m >>= f)
  unfolding ◌>>=◌
  Ensures-bind m f km kf = record { at = λ w. let (r, w') = m w in bind_at r w' f (km.at w) kf }

-- The value of a call that returned one.
pub Ensures-ok :
    {A : Type 0} (Q : A → Type 0) (m : Exec A) (w : World) {a : A} {w' : World}
    → Ensures Q m
    → m w ≡ (ok a, w')
    → Q a
Ensures-ok {A} Q m w k e = subst (λ (r : Result A × World). OnOk Q r.0) e (k.at w)

weaken_at :
    {A : Type 0} (Q R : A → Type 0) (r : Result A) → ((a : A) → Q a → R a) → OnOk Q r → OnOk R r
weaken_at Q R (ok a) h q = h a q
weaken_at Q R (err e) h q = tt
weaken_at Q R (panic s) h q = tt

pub Ensures-weaken :
    {A : Type 0} (Q R : A → Type 0) (m : Exec A) → ((a : A) → Q a → R a) → Ensures Q m → Ensures R m
Ensures-weaken Q R m h k = record { at = λ w. weaken_at Q R (m w).0 h (k.at w) }
