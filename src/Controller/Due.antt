-- ===== src/Controller/Due.antt =====
-- When a pass asks to run again.
use cert_rotator.Base.{
  ◌+◌, String, Bool, true, false, ◌⊎◌, inl, inr, if◌then◌else◌, ◌≡◌, refl, arith,
}
use cert_rotator.Base.Int.{ℤ, pos}
use cert_rotator.Api.{CertRotationConfigSpec, CertRotationConfigStatus}
use cert_rotator.Host.{
  Env, Error, World, ok, err, panic, attempt, found, get_config, modify_status, next_call, pure,
  ◌>>=◌,
}
use cert_rotator.Host.Ensures.{
  OnOk, Ensures, Ensures-bind, Ensures-pure, Ensures-any, Ensures-if, Ensures-ok, Ensures-weaken,
}
use cert_rotator.Detector.{DetectionResult, needs_renewal}
use cert_rotator.State.{Json}
use cert_rotator.Controller.Renewal.{run_rollback}
use cert_rotator.Controller.Rollback.{run_rollback_lem}
use cert_rotator.Controller.Requeue.{requeue_interval, requeue_with_jitter}
use cert_rotator.Controller.{
  one_hour, on_rollback, on_renewal, renew, go_idle, on_detected, check_certs, on_found, on_fetched,
  reconcile,
}

-- The durations that a pass asks for; 0 asks for none.
pub data Due (node : String) (spec : CertRotationConfigSpec) (d : ℤ) : Type 0 where
  not_again : d ≡ pos 0 → Due node spec d
  hourly : d ≡ one_hour → Due node spec d
  plain : d ≡ requeue_interval spec → Due node spec d
  jittered : d ≡ requeue_with_jitter node spec → Due node spec d

module _ (env : Env) (json : Json) (node : String) (spec : CertRotationConfigSpec) where
  not_ok :
      (b : Bool) (e : Error) (s : String) (w : World)
      → OnOk
          (λ (r : Error ⊎ Unit {0}). (x : Error) × (r ≡ inl x))
          (attempt (λ _. if b then (err e, w) else (panic s, w)) w).0
  unfolding attempt
  not_ok true e s w = (e, refl)
  not_ok false e s w = tt

  pub rollback_fails :
      (e : Error)
      → Ensures (λ r. (x : Error) × (r ≡ inl x)) (attempt (run_rollback env json node spec e))
  unfolding attempt
  rollback_fails e = record {
    at = λ w. rw (run_rollback_lem env json node spec e w) (not_ok _ _ _ w);
  }

  pub on_rollback-failed :
      (e x : Error) → Ensures (λ d. d ≡ pos 0) (on_rollback env node spec e (inl x))
  unfolding on_rollback
  on_rollback-failed e x = Ensures-bind _ _ (Ensures-any _) λ _ _.
      Ensures-bind _ _ (Ensures-any _)
        λ _ _. Ensures-bind _ _ (Ensures-any _) λ _ _. Ensures-pure _ refl

  on_renewal-failed : (e : Error) → Ensures (λ d. d ≡ pos 0) (on_renewal env json node spec (inl e))
  unfolding on_renewal
  on_renewal-failed e =
      Ensures-bind _ _ (Ensures-any _)
        λ _ _. Ensures-bind _ _ (rollback_fails e) λ r h. rw h.1 (on_rollback-failed e h.0)

  pub on_renewal-done :
      Ensures (λ d. d ≡ requeue_with_jitter node spec) (on_renewal env json node spec (inr tt))
  unfolding on_renewal
  on_renewal-done = Ensures-bind _ _ (Ensures-any _) λ _ _. Ensures-bind _ _ (Ensures-any _) λ _ _.
      Ensures-bind _ _ (Ensures-any _)
        λ _ _. Ensures-bind _ _ (Ensures-any _) λ _ _. Ensures-pure _ refl

  on_renewal-Due :
      (r : Error ⊎ Unit {0}) → Ensures (Due node spec) (on_renewal env json node spec r)
  on_renewal-Due (inl e) =
      Ensures-weaken (λ d. d ≡ pos 0) _ _ (λ d h. not_again h) (on_renewal-failed e)
  on_renewal-Due (inr _) =
      Ensures-weaken (λ d. d ≡ requeue_with_jitter node spec) _ _ (λ d h. jittered h)
        on_renewal-done

  go_idle-Due : Ensures (Due node spec) (go_idle env node spec)
  unfolding go_idle
  go_idle-Due =
      Ensures-bind _ _ (Ensures-any _)
        λ _ _. Ensures-bind _ _ (Ensures-any _) λ _ _. Ensures-pure _ (jittered refl)

  renew-Due : (r : DetectionResult) → Ensures (Due node spec) (renew env json node spec r)
  unfolding renew
  renew-Due r =
      Ensures-bind _ _ (Ensures-any _)
        λ _ _. Ensures-bind _ _ (Ensures-any _) λ done _. on_renewal-Due done

  on_detected-Due :
      (r : Error ⊎ DetectionResult) → Ensures (Due node spec) (on_detected env json node spec r)
  unfolding on_detected
  on_detected-Due (inl e) = Ensures-bind _ _ (Ensures-any _) λ _ _. Ensures-pure _ (plain refl)
  on_detected-Due (inr r) = Ensures-bind _ _ (Ensures-any _) λ _ _.
      Ensures-bind _ _ (Ensures-any _)
        λ _ _. Ensures-if (needs_renewal r) _ _ (λ _. renew-Due r) (λ _. go_idle-Due)

  check_certs-Due : Ensures (Due node spec) (check_certs env json node spec)
  unfolding check_certs
  check_certs-Due =
      Ensures-bind _ _ (Ensures-any _)
        λ _ _. Ensures-bind _ _ (Ensures-any _) λ r _. on_detected-Due r

  on_found-Due : Ensures (Due node spec) (on_found env json node spec)
  unfolding on_found
  on_found-Due = Ensures-bind _ _ (Ensures-any _) λ critical _.
      Ensures-if critical _ _ (λ _. Ensures-pure _ (hourly refl)) (λ _. check_certs-Due)

-- If a pass returns a result after a renewal that failed, it asks for no further pass.
pub on_renewal-not_again :
    (env : Env) (json : Json) (node : String) (spec : CertRotationConfigSpec) (e : Error)
    (w : World) (d : ℤ) (w' : World)
    → on_renewal env json node spec (inl e) w ≡ (ok d, w')
    → d ≡ pos 0
on_renewal-not_again env json node spec e w d w' done =
    Ensures-ok (λ d. d ≡ pos 0) (on_renewal env json node spec (inl e)) w
      (on_renewal-failed env json node spec e) done

-- A pass that finds the configuration and returns without an error asks to run again not at all, in
-- an hour, after the interval of the configuration, or after this interval and the node's jitter.
pub reconcile-Due :
    (env : Env) (json : Json) (node : String) (spec : CertRotationConfigSpec)
    (status : CertRotationConfigStatus) (w : World) (d : ℤ) (w' : World)
    → env.get w.calls ≡ found spec status
    → reconcile env json node w ≡ (ok d, w')
    → Due node spec d
unfolding reconcile get_config on_fetched modify_status next_call pure ◌>>=◌
reconcile-Due env json node spec status w d w' fetched done =
    Ensures-ok (Due node spec) (on_found env json node spec)
      (record w { calls = w.calls + 1; status = status }) {w' = w'}
      (on_found-Due env json node spec) (ground (arith, fetched, done))
