-- ===== src/PodRestart/Wait.antt =====
-- Waiting for a manifest after a restart (WaitForReady in pkg/podrestart/podrestart.go).
pub mod Deadline
use cert_rotator.Base.{
  ℕ, zero, suc, String, ◌<>◌, Bool, true, false, Option, none, some, ◌⊎◌, inl, inr, if◌then◌else◌,
}
use cert_rotator.Base.Int.{ℤ, pos, ltb_ℤ, ◌+ℤ◌}
use cert_rotator.Api.{Time, FilePath}
use cert_rotator.Host.{Env, Error, message, Exec, pure, fail, sleep, now, next_call, ◌>>=◌, ◌>>◌}
use cert_rotator.PodRestart.{Manager, manifest}

-- What `os.Stat` answers for the manifest, which others write meanwhile: an error, or the size.
abbrev pub Sizes : Type 0
Sizes = ℕ → FilePath → Error ⊎ ℤ

-- How a loop ends; `polling` is that the rounds of the model ran out.
pub data Outcome : Type 0 where
  ready : Outcome
  timed_out : Outcome
  polling : Outcome

abbrev pub has_content : Error ⊎ ℤ → Bool
has_content (inl e) = false
has_content (inr size) = ltb_ℤ (pos 0) size

-- `for time.Now().Before(deadline)`
unfoldable pub poll : Env → Sizes → FilePath → Time → ℕ → Exec Outcome
poll env sizes path deadline zero = pure polling
poll env sizes path deadline (suc rounds) = do
  t ← now env
  if ltb_ℤ t deadline
      then (do
        n ← next_call
        if has_content (sizes n path)
            then pure ready
            else sleep 2 >> poll env sizes path deadline rounds)
      else pure timed_out

-- The answer of the function, if the rounds of the model are enough for one.
unfoldable pub answer : String → Outcome → Exec (Option (Unit {0}))
answer name ready = pure (some tt)
answer name timed_out = fail (message ("timeout waiting for manifest " <> name <> " to be ready"))
answer name polling = pure none

unfoldable pub wait_for_ready : Env → Sizes → ℕ → Manager → String → ℤ → Exec (Option (Unit {0}))
wait_for_ready env sizes rounds m name timeout = do
  t ← now env
  outcome ← poll env sizes (manifest m name ".yaml") (t +ℤ timeout) rounds
  answer name outcome
