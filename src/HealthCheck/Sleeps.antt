-- ===== src/HealthCheck/Sleeps.antt =====
-- How long the retries sleep.
use cert_rotator.Base.{
  ℕ, zero, suc, ◌+◌, ◌-◌, ◌*◌, ◌≤◌, String, List, [], ◌∷◌, Option, none, some, ◌⊎◌, inl, inr,
  nat_eq, ◌≡◌, refl, arith, if◌then◌else◌,
}
use native.Mathlib.Nat.{suc-mul}
use cert_rotator.Base.Int.{ℤ, pos_part}
use cert_rotator.Host.{
  Env, Error, World, Event, wrote, slept, dialled, requested, mailed, posted, patched, Result, ok,
  err, panic, Exec, pure, fail, attempt, sleep, emit, next_call, dial, http_get, or_fail, ◌>>=◌,
}
use cert_rotator.Host.Keeps.{Keeps, keeps_rules, Keeps-bind}
use cert_rotator.HealthCheck.{
  Checker, Component, control_plane_components, tcp_probe, http_probe, expect_ok, check, check_each,
  check_all, after_round, retry, check_all_with_retry,
}

-- The seconds slept, by what was done.
abbrev pub seconds : List Event → ℕ
seconds [] = 0
seconds (slept n ∷ events) = n + seconds events
seconds (wrote _ ∷ events) = seconds events
seconds (dialled _ ∷ events) = seconds events
seconds (requested _ ∷ events) = seconds events
seconds (mailed _ ∷ events) = seconds events
seconds (posted _ ∷ events) = seconds events
seconds (patched _ ∷ events) = seconds events

record Slept (n : ℕ) (w : World) : Type 0 where
  total : seconds w.trace ≡ n

module _ {n : ℕ} where
  next_call-Slept : Keeps (Slept n) next_call
  unfolding next_call
  next_call-Slept = record { at = λ w h. record { total = h.total } }

  dialled-Slept : (addr : String) → Keeps (Slept n) (emit (dialled addr))
  unfolding emit
  dialled-Slept addr = record { at = λ w h. record { total = h.total } }

  requested-Slept : (url : String) → Keeps (Slept n) (emit (requested url))
  unfolding emit
  requested-Slept url = record { at = λ w h. record { total = h.total } }

  or_fail-Slept : (e : Option Error) → Keeps (Slept n) (or_fail e)
  or_fail-Slept none = search keeps_rules
  or_fail-Slept (some e) = search keeps_rules

  tcp_probe-Slept : (env : Env) (addr : String) → Keeps (Slept n) (tcp_probe env addr)
  unfolding tcp_probe dial
  tcp_probe-Slept env addr = search (keeps_rules, next_call-Slept, dialled-Slept, or_fail-Slept)

  expect_ok-Slept : (url : String) (status : ℕ) → Keeps (Slept n) (expect_ok url status)
  unfolding expect_ok
  expect_ok-Slept url status = search keeps_rules

  http_probe-Slept : (env : Env) (url : String) → Keeps (Slept n) (http_probe env url)
  unfolding http_probe http_get
  http_probe-Slept env url =
      search (keeps_rules, next_call-Slept, requested-Slept, expect_ok-Slept) depth 8

  check-Slept : (env : Env) (c : Checker) (comp : Component) → Keeps (Slept n) (check env c comp)
  unfolding check
  check-Slept env c comp = search (keeps_rules, tcp_probe-Slept, http_probe-Slept)

  check_each-Slept :
      (env : Env) (c : Checker) (comps : List Component) → Keeps (Slept n) (check_each env c comps)
  unfolding check_each
  check_each-Slept env c [] = search keeps_rules
  check_each-Slept env c (comp ∷ comps) =
      Keeps-bind _ _ (search (keeps_rules, check-Slept)) (λ _. check_each-Slept env c comps)

  round-Slept : (env : Env) (c : Checker) → Keeps (Slept n) (attempt (check_all env c))
  unfolding check_all
  round-Slept env c = search (keeps_rules, check_each-Slept env c control_plane_components)

-- The seconds slept after a call, from those before it, are within a bound.
record Within (s : ℕ) (bound : ℕ) (w : World) : Type 0 where
  total : seconds w.trace ≤ s + bound

bind_at :
    {A B : Type 0} (P : World → Type 0) (r : Result A) (w : World) (f : A → Exec B)
    → P w
    → ((a : A) → P (f a w).1)
    → P (((λ _. (r, w)) >>= f) w).1
unfolding ◌>>=◌
bind_at P (ok a) w f h k = k a
bind_at P (err e) w f h k = h
bind_at P (panic s) w f h k = h

-- The sleeps between a number of rounds.
abbrev breaks : ℕ → ℕ
breaks zero = 0
breaks (suc n) = n

breaks_lem : (n : ℕ) → breaks n ≡ n - 1
breaks_lem zero = omega arith
breaks_lem (suc n) = omega arith

more_rounds : (r i : ℕ) → 1 ≤ r → i + breaks r * i ≡ r * i
more_rounds zero i positive = absurd (omega (arith, positive))
more_rounds (suc r) i positive = omega (arith, suc-mul r i)

-- The last round is not followed by a sleep.
after_round-Within :
    (c : Checker) (max interval n rounds : ℕ) (again : Exec (Unit {0})) (r : Error ⊎ Unit {0})
    (w : World)
    → n + suc rounds ≡ suc max
    → ((v : World) → Within (seconds v.trace) (breaks rounds * interval) (again v).1)
    → Within (seconds w.trace) (rounds * interval) (after_round c max interval n again r w).1
unfolding after_round sleep emit fail pure ◌>>=◌
after_round-Within c max interval n rounds again (inl e) w sum bound = elim (nat_eq.dec n max) [
  | yes same ↦ record { total = ground (arith, same) }
  | no ne ↦
      let v = record w { trace = slept interval ∷ w.trace } in
      let later = (bound v).total in
      let product = more_rounds rounds interval (omega (arith, ne, sum)) in
      record { total = ground (arith, ne, later, product) }
]
after_round-Within c max interval n rounds again (inr _) w sum bound = record {
  total = omega arith;
}

retry-Within :
    (env : Env) (c : Checker) (max interval rounds n : ℕ) (w : World)
    → n + rounds ≡ suc max
    → Within (seconds w.trace) (breaks rounds * interval) (retry env c max interval rounds n w).1
unfolding retry pure ◌>>=◌
retry-Within env c max interval zero n w sum = record { total = omega arith }
retry-Within env c max interval (suc rounds) n w sum =
    let (r, w1) = attempt (check_all env c) w in
    let same : seconds w1.trace ≡ seconds w.trace =
      ((round-Slept env c).at w (record { total = refl })).total in
    bind_at (Within (seconds w.trace) (rounds * interval)) r w1
      (after_round c max interval n (retry env c max interval rounds (n + 1)))
      (record { total = omega (arith, same) })
      λ x. rw same at (
        after_round-Within c max interval n rounds (retry env c max interval rounds (n + 1)) x w1
          sum λ v. retry-Within env c max interval rounds (n + 1) v (omega (arith, sum)))

-- However it ends, a health check with n attempts sleeps for at most n - 1 intervals in all, and
-- with no attempt or in a dry run not at all.
pub seconds-check_all_with_retry :
    (env : Env) (c : Checker) (attempts : ℤ) (interval : ℕ) (w : World)
    → seconds (check_all_with_retry env c attempts interval w).1.trace
      ≤ seconds w.trace + (if c.dry_run then 0 else (pos_part attempts - 1) * interval)
unfolding check_all_with_retry pure
seconds-check_all_with_retry env c attempts interval w =
    let real =
      (retry-Within env c (pos_part attempts) interval (pos_part attempts) 1 w
        (omega arith)).total in
    let bound = rw (breaks_lem (pos_part attempts)) at real in ground (arith, bound)
