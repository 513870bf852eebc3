-- ===== src/Host/Leaves.antt =====
-- What holds of the value of a call that returns one and of the world that it leaves.
use mathlib.Core.Path.{subst}
use cert_rotator.Base.{◌≡◌, Bool, true, false, if◌then◌else◌}
use cert_rotator.Host.Types.{World}
use cert_rotator.Host.Monad.{Result, ok, err, panic, Exec, ◌>>=◌}
use cert_rotator.Host.Keeps.{Keeps}
use cert_rotator.Host.Ensures.{OnOk, Ensures}

abbrev pub OnReturn : {A : Type 0} → (A → World → Type 0) → Result A → World → Type 0
OnReturn Q (ok a) w = Q a w
OnReturn Q (err e) w = Unit
OnReturn Q (panic s) w = Unit

pub record Leaves {A : Type 0} (Q : A → World → Type 0) (m : Exec A) : Type 0 where
  pub at : (w : World) → OnReturn Q (m w).0 (m w).1

-- The value and the world of a call that returned.
pub Leaves-ok :
    {A : Type 0} (Q : A → World → Type 0) (m : Exec A) (w : World) {a : A} {w' : World}
    → Leaves Q m
    → m w ≡ (ok a, w')
    → Q a w'
Leaves-ok {A} Q m w k e = subst (λ (p : Result A × World). OnReturn Q p.0 p.1) e (k.at w)

module _ {A : Type 0} {Q : A → World → Type 0} where
  pub Leaves-if :
      (test : Bool) (here there : Exec A)
      → Leaves Q here
      → Leaves Q there
      → Leaves Q (if test then here else there)
  Leaves-if true here there k l = k
  Leaves-if false here there k l = l

module _ {A B : Type 0} {V : A → Type 0} {Q : B → World → Type 0} where
  bind_at :
      (r : Result A) (w : World) (f : A → Exec B)
      → OnOk V r
      → ((a : A) → V a → Leaves Q (f a))
      → (let p = ((λ _. (r, w)) >>= f) w in OnReturn Q p.0 p.1)
  unfolding ◌>>=◌
  bind_at (ok a) w f h k = (k a h).at w
  bind_at (err e) w f h k = tt
  bind_at (panic s) w f h k = tt

  pub Leaves-bind :
      (m : Exec A) (f : A → Exec B)
      → Ensures V m
      → ((a : A) → V a → Leaves Q (f a))
      → Leaves Q (m >>= f)
  unfolding ◌>>=◌
  Leaves-bind m f km kf = record { at = λ w. let (r, w') = m w in bind_at r w' f (km.at w) kf }

module _ {A B : Type 0} {P : World → Type 0} where
  keep_at :
      (r : Result A) (w : World) (f : A → Exec B)
      → OnReturn (λ _. P) r w
      → ((a : A) → Keeps P (f a))
      → (let p = ((λ _. (r, w)) >>= f) w in OnReturn (λ _. P) p.0 p.1)
  unfolding ◌>>=◌
  keep_at (ok a) w f h k = kept (f a w).0 (f a w).1 ((k a).at w h)
    where
      kept : (r : Result B) (w' : World) → P w' → OnReturn (λ _. P) r w'
      kept (ok b) w' h = h
      kept (err e) w' h = tt
      kept (panic s) w' h = tt
  keep_at (err e) w f h k = tt
  keep_at (panic s) w f h k = tt

  -- What a call leaves stays if all that follows keeps it.
  pub Leaves-keep :
      (m : Exec A) (f : A → Exec B)
      → Leaves (λ _. P) m
      → ((a : A) → Keeps P (f a))
      → Leaves (λ _. P) (m >>= f)
  unfolding ◌>>=◌
  Leaves-keep m f km kf = record { at = λ w. let (r, w') = m w in keep_at r w' f (km.at w) kf }

module _ {A : Type 0} {V : A → Type 0} {P : World → Type 0} {Q : A → World → Type 0} where
  both_at :
      (r : Result A) (w : World)
      → ((a : A) (v : World) → V a → P v → Q a v)
      → OnOk V r
      → OnReturn (λ _. P) r w
      → OnReturn Q r w
  both_at (ok a) w h v p = h a w v p
  both_at (err e) w h v p = tt
  both_at (panic s) w h v p = tt

  pub Leaves-both :
      (m : Exec A)
      → ((a : A) (v : World) → V a → P v → Q a v)
      → Ensures V m
      → Leaves (λ _. P) m
      → Leaves Q m
  Leaves-both m h e l = record { at = λ w. both_at (m w).0 (m w).1 h (e.at w) (l.at w) }
