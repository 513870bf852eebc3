-- ===== src/Host/Total.antt =====
-- Calls that return no error: they return a value or panic.
use cert_rotator.Base.{String, Bool, true, false, if◌then◌else◌}
use cert_rotator.Host.Types.{World, Env}
use cert_rotator.Host.Monad.{
  Result, ok, err, panic, Exec, pure, crash, gets, attempt, log_error, now, next_call, ◌>>=◌,
}

abbrev pub NoError : {A : Type 0} → Result A → Type 0
NoError (ok a) = Unit
NoError (err e) = ⊥
NoError (panic s) = Unit

pub record Total {A : Type 0} (m : Exec A) : Type 0 where
  pub at : (w : World) → NoError (m w).0

module _ {A : Type 0} where
  pub Total-pure : (a : A) → Total (pure a)
  unfolding pure
  Total-pure a = record { at = λ w. tt }

  pub Total-crash : (s : String) → Total (crash {A = A} s)
  unfolding crash
  Total-crash s = record { at = λ w. tt }

  pub Total-gets : (f : World → A) → Total (gets f)
  unfolding gets
  Total-gets f = record { at = λ w. tt }

  attempt_at : (r : Result A) (w : World) → NoError (attempt (λ _. (r, w)) w).0
  unfolding attempt
  attempt_at (ok a) w = tt
  attempt_at (err e) w = tt
  attempt_at (panic s) w = tt

  pub Total-attempt : (m : Exec A) → Total (attempt m)
  unfolding attempt
  Total-attempt m = record { at = λ w. let (r, w') = m w in attempt_at r w' }

  pub Total-if : (b : Bool) (m n : Exec A) → Total m → Total n → Total (if b then m else n)
  Total-if true m n km kn = km
  Total-if false m n km kn = kn

module _ {A B : Type 0} where
  bind_at :
      (r : Result A) (w : World) (f : A → Exec B)
      → NoError r
      → ((a : A) → Total (f a))
      → NoError (((λ _. (r, w)) >>= f) w).0
  unfolding ◌>>=◌
  bind_at (ok a) w f h k = (k a).at w
  bind_at (err e) w f h k = h
  bind_at (panic s) w f h k = tt

  pub Total-bind :
      (m : Exec A) (f : A → Exec B) → Total m → ((a : A) → Total (f a)) → Total (m >>= f)
  unfolding ◌>>=◌
  Total-bind m f km kf = record { at = λ w. let (r, w') = m w in bind_at r w' f (km.at w) kf }

pub Total-log_error : (m : Exec (Unit {0})) → Total (log_error m)
unfolding log_error
Total-log_error m = Total-bind (attempt m) _ (Total-attempt m) (λ _. Total-pure tt)

pub Total-next_call : Total next_call
unfolding next_call
Total-next_call = record { at = λ w. tt }

pub Total-now : (env : Env) → Total (now env)
unfolding now
Total-now env = Total-bind next_call _ Total-next_call (λ n. Total-pure _)

pub ruleset total_rules = (
  Total-pure, Total-crash, Total-gets, Total-attempt, Total-if, Total-bind, Total-log_error,
  Total-next_call, Total-now,
)
