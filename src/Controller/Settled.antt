-- ===== src/Controller/Settled.antt =====
-- The phase in which a pass leaves its node.
use cert_rotator.Base.{
  ◌+◌, String, true, some, ◌⊎◌, inl, inr, ◌≡◌, refl, ap, ◌∙◌, arith, string_eq, Bool-cases,
}
use cert_rotator.Base.Int.{ℤ, pos}
use cert_rotator.Api.{Time, CertRotationConfigSpec, CertRotationConfigStatus, NodePhase}
use cert_rotator.Host.{
  Env, Error, World, ok, found, pure, gets, modify_status, next_call, get_config, ◌>>=◌,
}
use cert_rotator.Host.Keeps.{keeps_rules}
use cert_rotator.Host.Ensures.{Ensures-any, Ensures-bind, Ensures-pure}
use cert_rotator.Host.Leaves.{Leaves, Leaves-ok, Leaves-if, Leaves-bind, Leaves-keep, Leaves-both}
use cert_rotator.Detector.{DetectionResult, needs_renewal}
use cert_rotator.State.{Json}
use cert_rotator.Controller.{
  one_hour, is_critical, critical_message, on_rollback, on_renewal, renew, go_idle, on_detected,
  check_certs, on_found, on_fetched, reconcile,
}
use cert_rotator.Controller.Status.{
  node_status, update_node, in_phase, renewed, set_node_phase, set_node_renewed,
}
use cert_rotator.Controller.Due.{on_rollback-failed, rollback_fails}
use cert_rotator.Controller.Requeue.{requeue_interval, requeue_with_jitter}
use cert_rotator.Controller.Phase.{phase_of, InPhase, update_node-phase, with_conditions-phase}
use cert_rotator.Controller.Holds.{
  Accepts, rest-StatusHas, success-StatusHas, alert-StatusHas, patched_by-StatusHas,
  logged_patch-StatusHas,
}

-- The phases in which a pass may leave its node, each with the time to the next pass.
pub data Settled (node : String) (spec : CertRotationConfigSpec) (p : NodePhase) (d : ℤ)
    : Type 0 where
  at_rest : p ≡ NodePhase.idle → d ≡ requeue_with_jitter node spec → Settled node spec p d
  undetected : p ≡ NodePhase.failed → d ≡ requeue_interval spec → Settled node spec p d
  given_up : p ≡ NodePhase.critical → d ≡ pos 0 → Settled node spec p d
  held : p ≡ NodePhase.critical → d ≡ one_hour → Settled node spec p d

module _ (env : Env) (accepts : Accepts env) (json : Json) (node : String)
    (spec : CertRotationConfigSpec) where
  -- The node's phase and the time to the next pass.
  abbrev Ends : ℤ → World → Type 0
  Ends d w = Settled node spec (phase_of node w.status) d

  phase_set :
      (p : NodePhase) (reason : String) (s : CertRotationConfigStatus)
      → phase_of node (update_node node (in_phase node p reason) s) ≡ p
  phase_set p reason s = update_node-phase node (in_phase node p reason) p s (λ ns. refl)

  renewed_set :
      (t : Time) (s : CertRotationConfigStatus)
      → phase_of node (record (update_node node (renewed t) s) { last_renewed_at = some t })
        ≡ NodePhase.idle
  unfolding node_status
  renewed_set t s = update_node-phase node (renewed t) NodePhase.idle s (λ ns. refl)

  on_rollback-critical :
      (e x : Error)
      → Leaves (λ _. InPhase node NodePhase.critical) (on_rollback env node spec e (inl x))
  unfolding on_rollback set_node_phase
  on_rollback-critical e x =
      Leaves-keep _ _ (logged_patch-StatusHas env accepts _ (phase_set NodePhase.critical _)) λ _.
        alert-StatusHas env accepts (with_conditions-phase env node NodePhase.critical) node spec
          (pos 0) (critical_message e x)

  -- After a renewal that failed.
  pub on_renewal-critical :
      (e : Error)
      → Leaves (λ _. InPhase node NodePhase.critical) (on_renewal env json node spec (inl e))
  unfolding on_renewal
  on_renewal-critical e = Leaves-bind _ _ (Ensures-any _) λ _ _.
      Leaves-bind _ _ (rollback_fails env json node spec e)
        λ r h. rw h.1 (on_rollback-critical e h.0)

  on_rollback-Settled : (e x : Error) → Leaves Ends (on_rollback env node spec e (inl x))
  on_rollback-Settled e x =
      Leaves-both {P = InPhase node NodePhase.critical} _ (λ d w is_d h. given_up h.same is_d)
        (on_rollback-failed env json node spec e x) (on_rollback-critical e x)

  on_renewal-Settled : (r : Error ⊎ Unit {0}) → Leaves Ends (on_renewal env json node spec r)
  unfolding on_renewal set_node_renewed
  on_renewal-Settled (inl e) = Leaves-bind _ _ (Ensures-any _) λ _ _.
      Leaves-bind _ _ (rollback_fails env json node spec e)
        λ r h. rw h.1 (on_rollback-Settled e h.0)
  on_renewal-Settled (inr _) = Leaves-bind _ _ (Ensures-any _) λ t _.
      Leaves-both {P = InPhase node NodePhase.idle} _ (λ d w is_d h. at_rest h.same is_d)
        (Ensures-bind _ _ (Ensures-any _) λ _ _.
          Ensures-bind _ _ (Ensures-any _)
            λ _ _. Ensures-bind _ _ (Ensures-any _) λ _ _. Ensures-pure _ refl)
        (Leaves-keep _ _ (patched_by-StatusHas env accepts _ (renewed_set t)) (λ _.
          success-StatusHas env accepts (with_conditions-phase env node NodePhase.idle) node spec
            _))

  renew-Settled : (r : DetectionResult) → Leaves Ends (renew env json node spec r)
  unfolding renew
  renew-Settled r =
      Leaves-bind _ _ (Ensures-any _)
        λ _ _. Leaves-bind _ _ (Ensures-any _) λ r _. on_renewal-Settled r

  go_idle-Settled : Leaves Ends (go_idle env node spec)
  unfolding go_idle set_node_phase
  go_idle-Settled =
      Leaves-both {P = InPhase node NodePhase.idle} _ (λ d w is_d h. at_rest h.same is_d)
        (Ensures-bind _ _ (Ensures-any _)
          λ _ _. Ensures-bind _ _ (Ensures-any _) λ _ _. Ensures-pure _ refl)
        (Leaves-keep _ _ (patched_by-StatusHas env accepts _ (phase_set NodePhase.idle _))
          (λ _. rest-StatusHas env accepts (with_conditions-phase env node NodePhase.idle) _))

  on_detected-Settled :
      (r : Error ⊎ DetectionResult) → Leaves Ends (on_detected env json node spec r)
  unfolding on_detected set_node_phase
  on_detected-Settled (inl e) =
      Leaves-both {P = InPhase node NodePhase.failed} _ (λ d w is_d h. undetected h.same is_d)
        (Ensures-bind _ _ (Ensures-any _) λ _ _. Ensures-pure _ refl)
        (Leaves-keep _ _ (logged_patch-StatusHas env accepts _ (phase_set NodePhase.failed _))
          (λ _. search keeps_rules))
  on_detected-Settled (inr r) = Leaves-bind _ _ (Ensures-any _) λ t _.
      Leaves-bind _ _ (Ensures-any _)
        λ _ _. Leaves-if (needs_renewal r) _ _ (renew-Settled r) go_idle-Settled

  check_certs-Settled : Leaves Ends (check_certs env json node spec)
  unfolding check_certs
  check_certs-Settled =
      Leaves-bind _ _ (Ensures-any _)
        λ _ _. Leaves-bind _ _ (Ensures-any _) λ r _. on_detected-Settled r

pub is_critical-phase :
    (node : String) (s : CertRotationConfigStatus)
    → is_critical node s ≡ true
    → phase_of node s ≡ NodePhase.critical
unfolding is_critical node_status
is_critical-phase node s h = ground (arith, h)

-- If the API server accepts each status patch and answers with what it was sent, a pass that finds
-- the configuration and returns without an error leaves its node in the phase Idle, and asks to run
-- again after the interval and the jitter; or in Failed, and asks for the interval; or in Critical,
-- and asks for no further pass, or for one in an hour. It leaves the node in none of the phases
-- Detecting, Renewing and RollingBack, whatever phase the node was in before.
pub reconcile-Settled :
    (env : Env) (json : Json) (node : String) (spec : CertRotationConfigSpec)
    (status : CertRotationConfigStatus) (w : World) (d : ℤ) (w' : World)
    → Accepts env
    → env.get w.calls ≡ found spec status
    → reconcile env json node w ≡ (ok d, w')
    → Settled node spec (phase_of node w'.status) d
unfolding reconcile get_config on_fetched on_found modify_status next_call gets pure ◌>>=◌
reconcile-Settled env json node spec status w d w' accepts fetched done =
    let start = record w { calls = w.calls + 1; status = status } in
    elim (Bool-cases (is_critical node status)) [
      | inl critical ↦
          let same_d : d ≡ one_hour = ground (arith, fetched, critical, done) in
          let same_w : w'.status ≡ status = ground (arith, fetched, critical, done) in
          held (ap (phase_of node) same_w ∙ is_critical-phase node status critical) same_d
      | inr not_critical ↦
          Leaves-ok (λ d w. Settled node spec (phase_of node w.status) d)
            (check_certs env json node spec) start {w' = w'}
            (check_certs-Settled env accepts json node spec)
            (ground (arith, fetched, not_critical, done))
    ]
