-- ===== src/Tests/Waits.antt =====
-- An example of a wait for a manifest.
use cert_rotator.Base.{ℕ, ◌*◌, ◌<◌, some, ◌⊎◌, inr, ◌≡◌, arith, leb, if◌then◌else◌, [], ◌∷◌, false}
use cert_rotator.Base.Int.{pos, ◌+ℤ◌}
use cert_rotator.Host.{Env, message, World, ok, err}
use cert_rotator.PodRestart.{Manager, manifest}
use cert_rotator.PodRestart.Wait.{Sizes, wait_for_ready}
use cert_rotator.PodRestart.Wait.Deadline.{Ticks, Found, Late, Missed, wait_for_ready-ends}
use cert_rotator.Tests.Outside.{env, with_files}

abbrev pods : Manager
pods = record { manifest_dir = "manifests" ∷ []; dry_run = false }

-- Each call takes a second.
abbrev ticking : Env
ticking = record env { clock = λ n. pos (n * 1000000000) }

-- The manifest has content from the fifth call on.
abbrev sizes : Sizes
sizes n path = inr (if leb 5 n then pos 7 else pos 0)

abbrev start : World
start = with_files []

ticking-Ticks : (n : ℕ) → Ticks ticking n
ticking-Ticks n k = omega arith

wait_for_ready-ends_example :
    let path = manifest pods "etcd" ".yaml" in
    let deadline = pos 0 +ℤ pos 60000000000 in
    let result = (wait_for_ready ticking sizes 31 pods "etcd" (pos 60000000000) start).0 in
    ((k : ℕ) × Found ticking sizes path deadline 1 k × (result ≡ ok (some tt)))
    ⊎ ((k : ℕ) × Late ticking sizes path deadline 1 k
        × ((j : ℕ) → j < k → Missed ticking sizes path deadline 1 j)
        × (result ≡ err (message "timeout waiting for manifest etcd to be ready")))
wait_for_ready-ends_example =
    wait_for_ready-ends ticking sizes 30 pods "etcd" (pos 60000000000) start (omega arith)
      (ticking-Ticks 1) (omega arith)
