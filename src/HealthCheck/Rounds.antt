-- ===== src/HealthCheck/Rounds.antt =====
-- When the retries end well.
use cert_rotator.Base.{◌∷◌, ℕ, zero, suc, ◌+◌, false, ◌⊎◌, inl, inr, nat_eq, ◌≡◌, ◌≢◌, refl, arith}
use cert_rotator.Base.Int.{pos}
use cert_rotator.Host.{Env, Error, World, ok, Exec, pure, fail, sleep, slept, emit, ◌>>=◌}
use cert_rotator.Host.Inversion.{>>=-eq-ok}
use cert_rotator.Host.Written.{attempt-inr}
use cert_rotator.HealthCheck.{Checker, check_all, after_round, retry, check_all_with_retry}

-- After a round that failed and was not the last one, there is another.
after_round_ok :
    (c : Checker) (max interval n : ℕ) (again : Exec (Unit {0})) (r : Error ⊎ Unit {0}) (w : World)
    {w' : World}
    → after_round c max interval n again r w ≡ (ok tt, w')
    → ((r ≡ inr tt) × (w ≡ w')) ⊎ ((n ≢ max) × ((w1 : World) × (again w1 ≡ (ok tt, w'))))
unfolding after_round sleep emit fail pure ◌>>=◌
after_round_ok c max interval n again (inl e) w done = elim (nat_eq.dec n max) [
  | yes same ↦ absurd (ground (arith, same))
  | no ne ↦ inr (ne, (record w { trace = slept interval ∷ w.trace }, ground (arith, ne)))
]
after_round_ok c max interval n again (inr _) w done = inl (refl, cc)

retry_ok :
    (env : Env) (c : Checker) (max interval rounds n : ℕ) (w : World) {w' : World}
    → n + rounds ≡ max
    → retry env c max interval (suc rounds) n w ≡ (ok tt, w')
    → (w1 : World) × (check_all env c w1 ≡ (ok tt, w'))
unfolding retry
retry_ok env c max interval zero n w {w'} sum done =
    let (r, w1, tried, rest) = >>=-eq-ok _ _ w done in
    elim (after_round_ok c max interval n _ r w1 rest) [
      | inl (is_ok, same) ↦ (w, attempt-inr (check_all env c) w (cc))
      | inr (more, again) ↦ absurd (more (omega arith))
    ]
retry_ok env c max interval (suc rounds) n w {w'} sum done =
    let (r, w1, tried, rest) = >>=-eq-ok _ _ w done in
    elim (after_round_ok c max interval n _ r w1 rest) [
      | inl (is_ok, same) ↦ (w, attempt-inr (check_all env c) w (cc))
      | inr (more, (w2, again)) ↦ retry_ok env c max interval rounds (n + 1) w2 (omega arith) again
    ]

-- If at least one attempt is allowed and the run is not a dry one, retries that end without an
-- error end with a round in which the whole control plane was healthy.
pub check_all_with_retry-ok :
    (env : Env) (c : Checker) (max interval : ℕ) (w w' : World)
    → c.dry_run ≡ false
    → check_all_with_retry env c (pos (suc max)) interval w ≡ (ok tt, w')
    → (w1 : World) × (check_all env c w1 ≡ (ok tt, w'))
unfolding check_all_with_retry
check_all_with_retry-ok env c max interval w w' real done =
    retry_ok env c (suc max) interval max 1 w (omega arith) (ground (arith, real, done))
