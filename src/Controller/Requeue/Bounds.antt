-- ===== src/Controller/Requeue/Bounds.antt =====
-- When the reconciler runs again.
use cert_rotator.Base.{ℕ, ◌+◌, ◌*◌, ◌^◌, ◌≤◌, ◌<◌, String, ◌≡◌, ap, ◌∙◌, arith}
use cert_rotator.Base.Int.{pos, scale, int64, ◌+ℤ◌}
use cert_rotator.Api.{CertRotationConfigSpec}
use cert_rotator.Controller.Requeue.{hour, second, jitter, requeue_interval, requeue_with_jitter}

int64_small : (n : ℕ) → n < 2 ^ 63 → int64 (pos n) ≡ pos n
int64_small n small = ground arith

scale_pos : (a k : ℕ) → scale (pos a) k ≡ pos (a * k)
scale_pos a k = ground arith

jitter_small : (node : String) → jitter node ≤ 119 * second
unfolding jitter
jitter_small node = omega arith

+ℤ-pos : (a b : ℕ) → pos a +ℤ pos b ≡ pos (a + b)
unfolding ◌+ℤ◌
+ℤ-pos a b = ground arith

interval_lem :
    (spec : CertRotationConfigSpec) (h : ℕ)
    → spec.check_interval_hours ≡ pos h
    → h ≤ 2562000
    → requeue_interval spec ≡ pos (h * hour)
unfolding requeue_interval
interval_lem spec h is_h small =
    ap (λ z. int64 (scale z hour)) is_h
    ∙ ap int64 (scale_pos h hour)
    ∙ int64_small (h * hour) (omega arith)

-- For a check interval of h ≤ 2,562,000 hours, the wait for the next pass is at least h hours and
-- at most 119 seconds more: the 64 bits of a duration do not overflow.
pub requeue_with_jitter-bounds :
    (node : String) (spec : CertRotationConfigSpec) (h : ℕ)
    → spec.check_interval_hours ≡ pos h
    → h ≤ 2562000
    → (d : ℕ) × (requeue_with_jitter node spec ≡ pos d)
      × (h * hour ≤ d)
      × (d ≤ h * hour + 119 * second)
unfolding requeue_with_jitter
requeue_with_jitter-bounds node spec h is_h small =
    let due : h * hour + jitter node < 2 ^ 63 = omega (arith, jitter_small node) in
    (
      h * hour + jitter node,
      ap (λ z. int64 (z +ℤ pos (jitter node))) (interval_lem spec h is_h small)
          ∙ ap int64 (+ℤ-pos (h * hour) (jitter node))
          ∙ int64_small (h * hour + jitter node) due,
      omega arith,
      omega (arith, jitter_small node),
    )
