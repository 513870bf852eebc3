-- ===== src/Host/Keeps.antt =====
-- What holds after a call if it held before, however the call ends: one rule for each way to
-- build a call, and a set of them for `search`.
use cert_rotator.Base.{String, ◌≡◌, refl, Bool, true, false, ◌⊎◌, inl, inr, if◌then◌else◌}
use cert_rotator.Host.Types.{Error, World}
use cert_rotator.Host.Monad.{
  Result, ok, err, panic, Exec, pure, fail, crash, gets, wrap, attempt, lift, log_error, ◌>>=◌,
}

pub record Keeps {A : Type 0} (P : World → Type 0) (m : Exec A) : Type 0 where
  pub at : (w : World) → P w → P (m w).1

module _ {A : Type 0} {P : World → Type 0} where
  pub Keeps-pure : (a : A) → Keeps P (pure a)
  unfolding pure
  Keeps-pure a = record { at = λ w h. h }

  pub Keeps-fail : (e : Error) → Keeps P (fail {A = A} e)
  unfolding fail
  Keeps-fail e = record { at = λ w h. h }

  pub Keeps-crash : (s : String) → Keeps P (crash {A = A} s)
  unfolding crash
  Keeps-crash s = record { at = λ w h. h }

  pub Keeps-gets : (f : World → A) → Keeps P (gets f)
  unfolding gets
  Keeps-gets f = record { at = λ w h. h }

  pub Keeps-lift : (r : Error ⊎ A) → Keeps P (lift r)
  unfolding lift
  Keeps-lift (inl e) = record { at = λ w h. h }
  Keeps-lift (inr a) = record { at = λ w h. h }

  pub Keeps-wrap : (s : String) (m : Exec A) → Keeps P m → Keeps P (wrap s m)
  unfolding wrap
  Keeps-wrap s m k = record { at = k.at }

  pub Keeps-attempt : (m : Exec A) → Keeps P m → Keeps P (attempt m)
  unfolding attempt
  Keeps-attempt m k = record { at = k.at }

  pub Keeps-if :
      (test : Bool) (here there : Exec A)
      → (test ≡ true → Keeps P here)
      → (test ≡ false → Keeps P there)
      → Keeps P (if test then here else there)
  Keeps-if false here there on_true on_false = on_false refl
  Keeps-if true here there on_true on_false = on_true refl

module _ {A B : Type 0} {P : World → Type 0} where
  pub Keeps-bind_at :
      (r : Result A) (w : World) (f : A → Exec B)
      → ((a : A) → Keeps P (f a))
      → P w
      → P (((λ _. (r, w)) >>= f) w).1
  unfolding ◌>>=◌
  Keeps-bind_at (ok a) w f kf h = (kf a).at w h
  Keeps-bind_at (err e) w f kf h = h
  Keeps-bind_at (panic s) w f kf h = h

  pub Keeps-bind :
      (m : Exec A) (f : A → Exec B) → Keeps P m → ((a : A) → Keeps P (f a)) → Keeps P (m >>= f)
  unfolding ◌>>=◌
  Keeps-bind m f km kf = record {
    at = λ w h. let (r, w') = m w in Keeps-bind_at r w' f kf (km.at w h);
  }

module _ {P : World → Type 0} where
  pub Keeps-log_error : (m : Exec (Unit {0})) → Keeps P m → Keeps P (log_error m)
  unfolding log_error
  Keeps-log_error m k =
      Keeps-bind (attempt m) (λ _. pure tt) (Keeps-attempt m k) (λ _. Keeps-pure tt)

pub ruleset keeps_rules = (
  Keeps-pure, Keeps-fail, Keeps-crash, Keeps-gets, Keeps-lift, Keeps-wrap, Keeps-attempt, Keeps-if,
  Keeps-bind, Keeps-log_error,
)
