-- ===== src/Controller/Requeue.antt =====
-- When the reconciler runs again, in nanoseconds.
pub mod Bounds
use Prim.Native.Nat.{bit_xor}
use Prim.Native.Char.{code}
use cert_rotator.Base.{ℕ, ◌*◌, ◌%◌, ◌^◌, String, List, [], ◌∷◌}
use cert_rotator.Base.Int.{ℤ, pos, ◌+ℤ◌, scale, int64}
use cert_rotator.Api.{CertRotationConfigSpec}

-- The bytes of a node's name, which is ASCII.
abbrev bytes_of : String → List ℕ
bytes_of String.[] = []
bytes_of (String.◌∷◌ c s) = code c ∷ bytes_of s

-- FNV-1a of 32 bits, from `hash/fnv`.
unfoldable pub fnv_write : ℕ → List ℕ → ℕ
fnv_write h [] = h
fnv_write h (b ∷ bs) = fnv_write (bit_xor h b * 16777619 % 2 ^ 32) bs

unfoldable pub sum32 : String → ℕ
sum32 s = fnv_write 2166136261 (bytes_of s)

abbrev pub hour : ℕ
hour = 3600000000000

abbrev pub second : ℕ
second = 1000000000

-- `time.Duration(spec.CheckIntervalHours) * time.Hour`
unfoldable pub requeue_interval : CertRotationConfigSpec → ℤ
requeue_interval spec = int64 (scale spec.check_interval_hours hour)

unfoldable pub jitter : String → ℕ
jitter node = sum32 node % 120 * second

unfoldable pub requeue_with_jitter : String → CertRotationConfigSpec → ℤ
requeue_with_jitter node spec = int64 (requeue_interval spec +ℤ pos (jitter node))
