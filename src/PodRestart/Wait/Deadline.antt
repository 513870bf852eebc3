-- ===== src/PodRestart/Wait/Deadline.antt =====
-- Waiting ends by its deadline.
use mathlib.Core.Path.{subst}
use cert_rotator.Base.{
  ℕ, zero, suc, ◌+◌, ◌*◌, ◌≤◌, ◌<◌, ◌∷◌, String, ◌<>◌, true, false, some, ◌⊎◌, inl, inr, ◌≡◌, refl,
  arith, Bool-cases,
}
use cert_rotator.Base.Int.{ℤ, pos, pos_part, neg_part, ltb_ℤ, ◌≤ℤ◌, ◌+ℤ◌}
use cert_rotator.Api.{Time, FilePath}
use cert_rotator.Host.{
  Env, message, World, slept, ok, err, pure, fail, sleep, emit, now, next_call, ◌>>=◌,
}
use cert_rotator.PodRestart.{Manager, manifest}
use cert_rotator.PodRestart.Wait.{
  Sizes, Outcome, ready, timed_out, polling, has_content, poll, answer, wait_for_ready,
}

-- `t` is at least `d` nanoseconds before `u`.
abbrev pub Before : ℕ → Time → Time → Type 0
Before d t u = pos_part t + neg_part u + d ≤ pos_part u + neg_part t

abbrev pub two_seconds : ℕ
two_seconds = 2000000000

-- Where the call number `n` begins a first round, round `k` finds the file with content, or it
-- finds the deadline reached.
module _ (env : Env) (sizes : Sizes) (path : FilePath) (deadline : Time) (n : ℕ) where
  abbrev pub Found : ℕ → Type 0
  Found k =
      (ltb_ℤ (env.clock (n + 2 * k)) deadline ≡ true)
      × (has_content (sizes (n + 2 * k + 1) path) ≡ true)

  abbrev pub Missed : ℕ → Type 0
  Missed k = has_content (sizes (n + 2 * k + 1) path) ≡ false

  abbrev pub Late : ℕ → Type 0
  Late k = ltb_ℤ (env.clock (n + 2 * k)) deadline ≡ false

pub data Ended (env : Env) (sizes : Sizes) (path : FilePath) (deadline : Time) (n : ℕ)
    : Outcome → Type 0 where
  found : (k : ℕ) → Found env sizes path deadline n k → Ended env sizes path deadline n ready
  late :
      (k : ℕ)
      → Late env sizes path deadline n k
      → ((j : ℕ) → j < k → Missed env sizes path deadline n j)
      → Ended env sizes path deadline n timed_out

shift : (n k : ℕ) → n + 2 + 2 * k ≡ n + 2 * suc k
shift n k = omega arith

-- Each round of a loop that begins with call number `n` takes two seconds at least.
abbrev pub Ticks : Env → ℕ → Type 0
Ticks env n = (k : ℕ) → Before two_seconds (env.clock (n + 2 * k)) (env.clock (n + 2 * suc k))

Ticks-first :
    (env : Env) (n : ℕ) → Ticks env n → Before two_seconds (env.clock n) (env.clock (n + 2))
Ticks-first env n ticks = ground (arith, ticks 0)

Ticks-rest : (env : Env) (n : ℕ) → Ticks env n → Ticks env (n + 2)
Ticks-rest env n ticks k = rw (shift n k) (rw (shift n (suc k)) (ticks (suc k)))

module _ (env : Env) (sizes : Sizes) (path : FilePath) (deadline : Time) where
  -- One round more, at the beginning.
  Missed-before :
      (n k : ℕ)
      → Missed env sizes path deadline n 0
      → ((j : ℕ) → j < k → Missed env sizes path deadline (n + 2) j)
      → (j : ℕ) → j < suc k
      → Missed env sizes path deadline n j
  Missed-before n k missed before zero below = missed
  Missed-before n k missed before (suc j) below =
      subst (λ m. has_content (sizes (m + 1) path) ≡ false) (shift n j)
        (before j (omega (arith, below)))

  Ended-suc :
      (n : ℕ) {o : Outcome}
      → Missed env sizes path deadline n 0
      → Ended env sizes path deadline (n + 2) o
      → Ended env sizes path deadline n o
  Ended-suc n missed (found k here) = found (suc k) (
      subst (λ m. (ltb_ℤ (env.clock m) deadline ≡ true) × (has_content (sizes (m + 1) path) ≡ true))
        (shift n k) here)
  Ended-suc n missed (late k is_late before) =
      late (suc k) (subst (λ m. ltb_ℤ (env.clock m) deadline ≡ false) (shift n k) is_late)
        (Missed-before n k missed before)

  -- The loop ends.
  abbrev Ends : ℕ → World → Type 0
  Ends rounds w =
      (o : Outcome) × (w' : World) × (poll env sizes path deadline (suc rounds) w ≡ (ok o, w'))
      × Ended env sizes path deadline w.calls o

  poll_late : (rounds : ℕ) (w : World) → ltb_ℤ (env.clock w.calls) deadline ≡ false → Ends rounds w
  unfolding poll now next_call pure ◌>>=◌
  poll_late rounds w is_late = (
    timed_out,
    record w { calls = w.calls + 1 },
    ground (arith, is_late),
    late 0 (ground (arith, is_late)) (λ j below. absurd (omega (arith, below))),
  )

  poll-Ends :
      (rounds : ℕ) (w : World)
      → Ticks env w.calls
      → pos_part deadline + neg_part (env.clock w.calls)
        ≤ rounds * two_seconds + pos_part (env.clock w.calls) + neg_part deadline
      → Ends rounds w
  unfolding poll sleep emit now next_call pure ◌>>=◌
  poll-Ends zero w ticks enough = poll_late 0 w (ground (arith, enough))
  poll-Ends (suc rounds) w ticks enough = elim (Bool-cases (ltb_ℤ (env.clock w.calls) deadline)) [
    | inr is_late ↦ poll_late (suc rounds) w is_late
    | inl early ↦ elim (Bool-cases (has_content (sizes (w.calls + 1) path))) [
      | inl here ↦ (
        ready,
        record w { calls = w.calls + 2 },
        ground (arith, early, here),
        found 0 (ground (arith, early), ground (arith, here)),
      )
      | inr missed ↦
          let w2 = record w { calls = w.calls + 2; trace = slept 2 ∷ w.trace } in
          let tick = Ticks-first env w.calls ticks in
          let (o, w', rest, ended) =
            poll-Ends rounds w2 (Ticks-rest env w.calls ticks) (omega (arith, tick, enough)) in
          (
            o,
            w',
            ground (arith, early, missed, rest),
            Ended-suc w.calls (ground (arith, missed)) ended,
          )
    ]
  ]

+ℤ-parts :
    (a b : ℤ)
    → pos_part (a +ℤ b) + neg_part a + neg_part b ≡ neg_part (a +ℤ b) + pos_part a + pos_part b
unfolding ◌+ℤ◌
+ℤ-parts a b = ground arith

answered :
    (env : Env) (sizes : Sizes) (path : FilePath) (deadline : Time) (n : ℕ) (name : String)
    (o : Outcome) (w : World)
    → Ended env sizes path deadline n o
    → ((k : ℕ) × Found env sizes path deadline n k × ((answer name o w).0 ≡ ok (some tt)))
      ⊎ ((k : ℕ) × Late env sizes path deadline n k
          × ((j : ℕ) → j < k → Missed env sizes path deadline n j)
          × ((answer name o w).0
              ≡ err (message ("timeout waiting for manifest " <> name <> " to be ready"))))
unfolding answer pure fail
answered env sizes path deadline n name ready w (found k here) = inl (k, here, refl)
answered env sizes path deadline n name timed_out w (late k is_late before) =
    inr (k, is_late, before, refl)
answered env sizes path deadline n name polling w e = elim e [ ]

-- If the clock does not go back and each round takes two seconds at least, and the rounds of the
-- model are one more than the timeout has spans of two seconds, WaitForReady ends: without an error
-- after a round that began before the deadline and found the manifest with content, or with its
-- error after the deadline, when no round before had found the manifest with content.
pub wait_for_ready-ends :
    (env : Env) (sizes : Sizes) (rounds : ℕ) (m : Manager) (name : String) (timeout : ℤ) (w : World)
    → Before 0 (env.clock w.calls) (env.clock (w.calls + 1))
    → Ticks env (w.calls + 1)
    → timeout ≤ℤ pos (rounds * two_seconds)
    → let path = manifest m name ".yaml" in
      let deadline = env.clock w.calls +ℤ timeout in
      let result = (wait_for_ready env sizes (suc rounds) m name timeout w).0 in
      ((k : ℕ) × Found env sizes path deadline (w.calls + 1) k × (result ≡ ok (some tt)))
      ⊎ ((k : ℕ) × Late env sizes path deadline (w.calls + 1) k
          × ((j : ℕ) → j < k → Missed env sizes path deadline (w.calls + 1) j)
          × (result ≡ err (message ("timeout waiting for manifest " <> name <> " to be ready"))))
unfolding wait_for_ready now next_call pure ◌>>=◌
wait_for_ready-ends env sizes rounds m name timeout w forward ticks enough =
    let path = manifest m name ".yaml" in
    let deadline = env.clock w.calls +ℤ timeout in
    let w1 = record w { calls = w.calls + 1 } in
    let (o, w2, done, ended) =
      poll-Ends env sizes path deadline rounds w1 ticks
        (omega (arith, +ℤ-parts (env.clock w.calls) timeout, forward, enough)) in
    rw done (answered env sizes path deadline (w.calls + 1) name o w2 ended)
