-- ===== src/Host/Inversion.antt =====
-- What a call that ended well did on the way.
use mathlib.Core.Path.{subst}
use cert_rotator.Base.{arith, ◌⊎◌, inl, inr, String, Bool, true, false, if◌then◌else◌, ◌≡◌, refl}
use cert_rotator.Host.Types.{Error, World}
use cert_rotator.Host.Monad.{Result, ok, err, panic, Exec, fail, wrap, attempt, ◌>>=◌}
use cert_rotator.Host.Keeps.{Keeps}

module _ {A B : Type 0} where
  bind_inv :
      (r : Result A) (w1 : World) (f : A → Exec B) {b : B} {w' : World}
      → ((λ _. (r, w1)) >>= f) w1 ≡ (ok b, w')
      → (a : A) × (r ≡ ok a) × (f a w1 ≡ (ok b, w'))
  unfolding ◌>>=◌
  bind_inv (ok a) w1 f e = (a, refl, e)
  bind_inv (err x) w1 f e = cc
  bind_inv (panic s) w1 f e = cc

  -- A sequence that returns a value has passed through a value and a world in between.
  pub >>=-eq-ok :
      (m : Exec A) (f : A → Exec B) (w : World) {b : B} {w' : World}
      → (m >>= f) w ≡ (ok b, w')
      → (a : A) × (w1 : World) × (m w ≡ (ok a, w1)) × (f a w1 ≡ (ok b, w'))
  unfolding ◌>>=◌
  >>=-eq-ok m f w e =
      let (a, p, q) = bind_inv (m w).0 (m w).1 f e in (a, (m w).1, (λ i. (p i, (m w).1)), q)

  -- The other way round.
  pub >>=-done :
      (m : Exec A) (f : A → Exec B) (w : World) {a : A} {w1 : World} {r : Result B × World}
      → m w ≡ (ok a, w1)
      → f a w1 ≡ r
      → (m >>= f) w ≡ r
  unfolding ◌>>=◌
  >>=-done m f w first rest = rw first rest

module _ {A : Type 0} where
  wrap_inv :
      (s : String) (r : Result A) (w1 : World) {a : A} {w' : World}
      → wrap s (λ _. (r, w1)) w1 ≡ (ok a, w')
      → ◌≡◌ {A = Result A × World} (r, w1) (ok a, w')
  unfolding wrap
  wrap_inv s (ok a) w1 e = e
  wrap_inv s (err x) w1 e = cc
  wrap_inv s (panic t) w1 e = cc

  pub wrap-eq-ok :
      (s : String) (m : Exec A) (w : World) {a : A} {w' : World}
      → wrap s m w ≡ (ok a, w')
      → m w ≡ (ok a, w')
  unfolding wrap
  wrap-eq-ok s m w e = wrap_inv s (m w).0 (m w).1 e

  -- What a call keeps holds where it ended.
  pub Keeps-eq :
      (P : World → Type 0) (m : Exec A) (w : World) {r : Result A} {w' : World}
      → Keeps P m
      → P w
      → m w ≡ (r, w')
      → P w'
  Keeps-eq P m w k h e = subst (λ (p : Result A × World). P p.1) e (k.at w h)

  attempt_inv :
      (r0 : Result A) (w0 : World) {r : Error ⊎ A} {w1 : World}
      → attempt (λ _. (r0, w0)) w0 ≡ (ok r, w1)
      → ((e : Error) × (r ≡ inl e) × ◌≡◌ {A = Result A × World} (r0, w0) (err e, w1))
        ⊎ ((a : A) × (r ≡ inr a) × ◌≡◌ {A = Result A × World} (r0, w0) (ok a, w1))
  unfolding attempt
  attempt_inv (ok a) w0 e = inr (a, cc, cc)
  attempt_inv (err x) w0 e = inl (x, cc, cc)
  attempt_inv (panic t) w0 e = absurd (cc)

  -- A call that was attempted has returned an error or a value.
  pub attempt-eq-ok :
      (m : Exec A) (w : World) {r : Error ⊎ A} {w1 : World}
      → attempt m w ≡ (ok r, w1)
      → ((e : Error) × (r ≡ inl e) × (m w ≡ (err e, w1)))
        ⊎ ((a : A) × (r ≡ inr a) × (m w ≡ (ok a, w1)))
  unfolding attempt
  attempt-eq-ok m w e = attempt_inv (m w).0 (m w).1 e

  -- The answer of an attempt at a call that returns.
  pub attempt-done :
      (m : Exec A) (w : World) {a : A} {v : World} {r : Error ⊎ A} {w1 : World}
      → m w ≡ (ok a, v)
      → attempt m w ≡ (ok r, w1)
      → r ≡ inr a
  unfolding attempt
  attempt-done m w done tried = ground (arith, done, tried)

  -- A call behind a test that refuses.
  pub not_refused :
      (test : Bool) (e : Error) (m : Exec A) (w : World) {a : A} {w' : World}
      → (if test then fail e else m) w ≡ (ok a, w')
      → (test ≡ false) × (m w ≡ (ok a, w'))
  unfolding fail
  not_refused true e m w done = absurd (cc)
  not_refused false e m w done = (refl, done)
