-- ===== src/Host/Monad.antt =====
-- The monad of a Go function that returns `(A, error)`. What was done before an error stays done.
use cert_rotator.Base.{List, ℕ, ◌+◌, String, ◌⊎◌, inl, inr, ◌∷◌}
use cert_rotator.Base.Dict.{Dict, keys, select}
use cert_rotator.Host.Types.{Error, wrapped, Env, World, Event}
use cert_rotator.Api.{Time, CertRotationConfigStatus}

-- `panic` unwinds through every caller: nothing recovers it.
pub data Result {ℓ} (A : Type ℓ) : Type ℓ where
  ok : A → Result A
  err : Error → Result A
  panic : String → Result A

abbrev pub Exec : Type 0 → Type 0
Exec A = World → Result A × World

abbrev continue : {A B : Type 0} → Result A → (A → Exec B) → Exec B
continue (ok a) f w = f a w
continue (err e) f w = (err e, w)
continue (panic s) f w = (panic s, w)

module _ {A : Type 0} where
  unfoldable pub pure : A → Exec A
  pure a w = (ok a, w)

  unfoldable pub fail : Error → Exec A
  fail e w = (err e, w)

  unfoldable pub crash : String → Exec A
  crash s w = (panic s, w)

  unfoldable pub gets : (World → A) → Exec A
  gets f w = (ok (f w), w)

  abbrev wrap_result : String → Result A → Result A
  wrap_result s (ok a) = ok a
  wrap_result s (err e) = err (wrapped s e)
  wrap_result s (panic t) = panic t

  -- `if err != nil { return fmt.Errorf("s: %w", err) }`
  unfoldable pub wrap : String → Exec A → Exec A
  wrap s m w = let (r, w') = m w in (wrap_result s r, w')

  abbrev attempted : Result A → Result (Error ⊎ A)
  attempted (ok a) = ok (inr a)
  attempted (err e) = ok (inl e)
  attempted (panic s) = panic s

  -- The error of a call, for code that goes on after it.
  unfoldable pub attempt : Exec A → Exec (Error ⊎ A)
  attempt m w = let (r, w') = m w in (attempted r, w')

  unfoldable pub lift : Error ⊎ A → Exec A
  lift (inl e) w = (err e, w)
  lift (inr a) w = (ok a, w)

module _ {A B : Type 0} where
  infixl 5 ◌>>=◌ ◌>>◌
  unfoldable pub ◌>>=◌ : Exec A → (A → Exec B) → Exec B
  ◌>>=◌ m f w = let (r, w') = m w in continue r f w'

  abbrev pub ◌>>◌ : Exec A → Exec B → Exec B
  m >> k = m >>= λ _. k

-- A call whose error is only logged.
unfoldable pub log_error : Exec (Unit {0}) → Exec (Unit {0})
log_error m = attempt m >>= λ _. pure tt

-- The number of the next call.
unfoldable pub next_call : Exec ℕ
next_call w = (ok w.calls, record w { calls = w.calls + 1 })

unfoldable pub emit : Event → Exec (Unit {0})
emit e w = (ok tt, record w { trace = e ∷ w.trace })

unfoldable pub modify_status :
    (CertRotationConfigStatus → CertRotationConfigStatus) → Exec (Unit {0})
modify_status f w = (ok tt, record w { status = f w.status })

-- `time.Now()`
unfoldable pub now : Env → Exec Time
now env = next_call >>= λ n. pure (env.clock n)

-- `for k, v := range m`: the entries in the order of this loop.
unfoldable pub range_map : {V : Type 0} → Env → Dict V → Exec (List (String × V))
range_map env m = next_call >>= λ n. pure (select (env.order n (keys m)) m)
