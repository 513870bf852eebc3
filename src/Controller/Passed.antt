-- ===== src/Controller/Passed.antt =====
-- What a pass went through that detected certificates as due and left its node Idle.
use mathlib.Core.Path.{subst}
use cert_rotator.Base.{◌+◌, String, true, inl, inr, ◌≡◌, ◌≢◌, refl, sym, ap, ◌∙◌, arith, Bool-cases}
use cert_rotator.Base.Int.{ℤ}
use cert_rotator.Api.{FilePath, CertRotationConfigSpec, CertRotationConfigStatus, NodePhase}
use cert_rotator.Host.{
  Env, World, ok, found, pure, gets, modify_status, next_call, get_config, now, attempt, ◌>>=◌,
}
use cert_rotator.Host.Inversion.{>>=-eq-ok, attempt-eq-ok, attempt-done, Keeps-eq}
use cert_rotator.Host.Leaves.{Leaves-ok}
use cert_rotator.Host.Keeps.{Keeps-attempt}
use cert_rotator.Host.Frame.{FileIs, now-FileIs}
use cert_rotator.Detector.{DetectionResult, detect, needs_renewal}
use cert_rotator.Detector.Frame.{detect-FileIs}
use cert_rotator.State.{Json}
use cert_rotator.Controller.{
  is_critical, detector_of, on_renewal, renew, on_detected, check_certs, on_found, on_fetched,
  reconcile,
}
use cert_rotator.Controller.Frame.{
  set_node_phase-FileIs, update_node_cert_status-FileIs, on_success-FileIs,
}
use cert_rotator.Controller.Holds.{Accepts}
use cert_rotator.Controller.Phase.{phase_of, InPhase}
use cert_rotator.Controller.Renewal.{run_renewal}
use cert_rotator.Controller.Settled.{on_renewal-critical, is_critical-phase}
use cert_rotator.Controller.Status.{set_node_phase, update_node_cert_status, to_cert_statuses}

-- A renewal that succeeded in between two worlds, and what followed; no file changed before it or
-- after it.
pub record Passed (env : Env) (json : Json) (node : String) (spec : CertRotationConfigSpec)
    (r : DetectionResult) (w : World) (d : ℤ) (w' : World) : Type 0 where
  pub begun : World
  pub ended : World
  pub is_ok : run_renewal env node spec r begun ≡ (ok tt, ended)
  pub rest : on_renewal env json node spec (inr tt) ended ≡ (ok d, w')
  pub same_before : (q : FilePath) → begun.files q ≡ w.files q
  pub same_after : (q : FilePath) → w'.files q ≡ ended.files q

idle-ne-critical : NodePhase.idle ≢ NodePhase.critical
idle-ne-critical = cc

module _ (env : Env) (accepts : Accepts env) (json : Json) (node : String)
    (spec : CertRotationConfigSpec) (r : DetectionResult) where
  from_here :
      (v w : World) {d : ℤ} {w' : World}
      → Passed env json node spec r v d w'
      → ((q : FilePath) → v.files q ≡ w.files q)
      → Passed env json node spec r w d w'
  from_here v w p same = record {
    begun = p.begun;
    ended = p.ended;
    is_ok = p.is_ok;
    rest = p.rest;
    same_before = λ q. p.same_before q ∙ same q;
    same_after = p.same_after;
  }

  renew-Passed :
      (w : World) {d : ℤ} {w' : World}
      → renew env json node spec r w ≡ (ok d, w')
      → phase_of node w'.status ≡ NodePhase.idle
      → Passed env json node spec r w d w'
  unfolding renew
  renew-Passed w {d} {w'} done idle =
      let (_, w1, marked, d1) =
        >>=-eq-ok (set_node_phase env node NodePhase.renewing "") _ w done in
      let (x, w2, tried, d2) = >>=-eq-ok (attempt (run_renewal env node spec r)) _ w1 d1 in
      elim (attempt-eq-ok (run_renewal env node spec r) w1 tried) [
        | inl (e, failed, _) ↦
            let ended : on_renewal env json node spec (inl e) w2 ≡ (ok d, w') =
              subst (λ y. on_renewal env json node spec y w2 ≡ (ok d, w')) failed d2 in
            let critical =
              (Leaves-ok (λ _. InPhase node NodePhase.critical) _ w2
                (on_renewal-critical env accepts json node spec e) ended).same in
            absurd (idle-ne-critical (sym idle ∙ critical))
        | inr (_, succeeded, renewal) ↦
            let followed : on_renewal env json node spec (inr tt) w2 ≡ (ok d, w') =
              subst (λ y. on_renewal env json node spec y w2 ≡ (ok d, w')) succeeded d2 in
            record {
              begun = w1;
              ended = w2;
              is_ok = renewal;
              rest = followed;
              same_before = λ q.
                  (Keeps-eq (FileIs q (w.files q)) _ w
                    (set_node_phase-FileIs env node NodePhase.renewing "") (record { same = refl })
                    marked).same;
              same_after = λ q.
                  (Keeps-eq (FileIs q (w2.files q)) _ w2 (on_success-FileIs env node spec json)
                    (record { same = refl }) followed).same;
            }
      ]

  module _ (needed : needs_renewal r ≡ true) where
    on_detected-Passed :
        (w : World) {d : ℤ} {w' : World}
        → on_detected env json node spec (inr r) w ≡ (ok d, w')
        → phase_of node w'.status ≡ NodePhase.idle
        → Passed env json node spec r w d w'
    unfolding on_detected
    on_detected-Passed w {d} {w'} done idle =
        let (t, w1, at_t, d1) = >>=-eq-ok (now env) _ w done in
        let (_, w2, noted, d2) =
          >>=-eq-ok (update_node_cert_status env node (to_cert_statuses r) t) _ w1 d1 in
        let goes_on : renew env json node spec r w2 ≡ (ok d, w') = ground (arith, needed, d2) in
        from_here w2 w (renew-Passed w2 goes_on idle) λ q.
          (Keeps-eq (FileIs q (w1.files q)) _ w1
            (update_node_cert_status-FileIs env node (to_cert_statuses r) t)
            (record { same = refl }) noted).same
          ∙ (Keeps-eq (FileIs q (w.files q)) _ w (now-FileIs env) (record { same = refl })
              at_t).same

    check_certs-Passed :
        (w : World) {d : ℤ} {v w' : World}
        → detect env (detector_of spec) node (set_node_phase env node NodePhase.detecting "" w).1
          ≡ (ok r, v)
        → check_certs env json node spec w ≡ (ok d, w')
        → phase_of node w'.status ≡ NodePhase.idle
        → Passed env json node spec r w d w'
    unfolding check_certs
    check_certs-Passed w {d} {v} {w'} detected done idle =
        let (_, w1, marked, d1) =
          >>=-eq-ok (set_node_phase env node NodePhase.detecting "") _ w done in
        let (x, w2, tried, d2) = >>=-eq-ok (attempt (detect env (detector_of spec) node)) _ w1 d1 in
        let found_1 : detect env (detector_of spec) node w1 ≡ (ok r, v) =
          ap (λ m. detect env (detector_of spec) node m.1) (sym marked) ∙ detected in
        let is_found = attempt-done (detect env (detector_of spec) node) w1 found_1 tried in
        let goes_on = subst (λ y. on_detected env json node spec y w2 ≡ (ok d, w')) is_found d2 in
        from_here w2 w (on_detected-Passed w2 goes_on idle) λ q.
          (Keeps-eq (FileIs q (w1.files q)) _ w1
            (Keeps-attempt _ (detect-FileIs env (detector_of spec) node)) (record { same = refl })
            tried).same
          ∙ (Keeps-eq (FileIs q (w.files q)) _ w
              (set_node_phase-FileIs env node NodePhase.detecting "") (record { same = refl })
              marked).same

    pub reconcile-Passed :
        (status : CertRotationConfigStatus) (w : World) {d : ℤ} {v w' : World}
        → env.get w.calls ≡ found spec status
        → detect env
            (detector_of spec)
            node
            (set_node_phase env node NodePhase.detecting ""
              (record w { calls = w.calls + 1; status = status })).1
          ≡ (ok r, v)
        → reconcile env json node w ≡ (ok d, w')
        → phase_of node w'.status ≡ NodePhase.idle
        → Passed env json node spec r w d w'
    unfolding reconcile get_config on_fetched on_found modify_status next_call gets pure ◌>>=◌
    reconcile-Passed status w {d} {v} {w'} fetched detected done idle =
        let start = record w { calls = w.calls + 1; status = status } in
        elim (Bool-cases (is_critical node status)) [
          | inl critical ↦
              let same_w : w'.status ≡ status = ground (arith, fetched, critical, done) in
              absurd (
                idle-ne-critical
                  (sym idle ∙ ap (phase_of node) same_w ∙ is_critical-phase node status critical))
          | inr not_critical ↦
              let checked : check_certs env json node spec start ≡ (ok d, w') =
                ground (arith, fetched, not_critical, done) in
              from_here start w (check_certs-Passed start detected checked idle) λ q. refl
        ]
