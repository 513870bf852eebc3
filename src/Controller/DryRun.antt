-- ===== src/Controller/DryRun.antt =====
-- What a dry run changes, and what it records.
use mathlib.Core.Path.{subst}
use cert_rotator.Base.{◌+◌, ℕ, String, true, false, some, inr, ◌≡◌, ◌≢◌, refl, sym, ap, ◌∙◌}
use cert_rotator.Base.Int.{ℤ}
use cert_rotator.Api.{Time, FilePath, CertRotationConfigSpec, CertRotationConfigStatus, NodePhase}
use cert_rotator.Host.{
  Env, World, Fetched, absent, unreachable, ok, found, is_prefix, now, next_call, pure, ◌>>=◌,
}
use cert_rotator.Host.Ensures.{Ensures}
use cert_rotator.Host.Leaves.{Leaves, Leaves-ok, Leaves-bind, Leaves-keep}
use cert_rotator.Detector.{DetectionResult, detect, needs_renewal}
use cert_rotator.State.{Json}
use cert_rotator.Controller.{detector_of, on_renewal, reconcile}
use cert_rotator.Controller.Conditions.{Flags, with_conditions}
use cert_rotator.Controller.Frame.{Outside, reconcile-keeps}
use cert_rotator.Controller.Holds.{Accepts, StatusHas, success-StatusHas, patched_by-StatusHas}
use cert_rotator.Controller.Passed.{reconcile-Passed}
use cert_rotator.Controller.Phase.{phase_of, node_status-update_node}
use cert_rotator.Controller.Status.{
  node_status, update_node, renewed, set_node_phase, set_node_renewed,
}

-- The status names one moment as that of the last renewal, of the node and of the cluster.
pub record Recorded (env : Env) (node : String) (s : CertRotationConfigStatus) : Type 0 where
  pub call : ℕ
  pub of_cluster : s.last_renewed_at ≡ some (env.clock call)
  pub of_node : (node_status node s).last_renewed_at ≡ some (env.clock call)

module _ (env : Env) (node : String) where
  conditions-Recorded :
      (fl : Flags) (t : Time) (s : CertRotationConfigStatus)
      → Recorded env node s
      → Recorded env node (with_conditions env fl t s)
  unfolding with_conditions node_status
  conditions-Recorded fl t s h = record {
    call = h.call;
    of_cluster = h.of_cluster;
    of_node = h.of_node;
  }

  renewed-Recorded :
      (n : ℕ) (t : Time) (s : CertRotationConfigStatus)
      → t ≡ env.clock n
      → Recorded env node (record (update_node node (renewed t) s) { last_renewed_at = some t })
  unfolding node_status
  renewed-Recorded n t s at = record {
    call = n;
    of_cluster = ap some at;
    of_node =
        ap (λ ns. ns.last_renewed_at) (node_status-update_node node (renewed t) s) ∙ ap some at;
  }

  now-clock : Ensures (λ t. (n : ℕ) × (t ≡ env.clock n)) (now env)
  unfolding now next_call pure ◌>>=◌
  now-clock = record { at = λ w. (w.calls, refl) }

  on_success-Recorded :
      Accepts env
      → (json : Json) (spec : CertRotationConfigSpec)
      → Leaves (λ _. StatusHas (Recorded env node)) (on_renewal env json node spec (inr tt))
  unfolding on_renewal set_node_renewed
  on_success-Recorded accepts json spec = Leaves-bind _ _ now-clock λ t (n, at).
      Leaves-keep _ _ (patched_by-StatusHas env accepts _ (λ s. renewed-Recorded n t s at))
        λ _. success-StatusHas env accepts conditions-Recorded node spec _

abbrev spec_in : CertRotationConfigSpec → Fetched → CertRotationConfigSpec
spec_in spec (found s status) = s
spec_in spec absent = spec
spec_in spec (unreachable e) = spec

true-ne-false : true ≢ false
true-ne-false = cc

-- A dry run writes to no other directory than the backups'.
dry-Outside :
    (spec : CertRotationConfigSpec) (q : FilePath)
    → spec.dry_run ≡ true
    → is_prefix spec.backup_dir q ≡ false
    → Outside q spec
dry-Outside spec q dry no_backup =
    let not_real = λ (real : spec.dry_run ≡ false). true-ne-false (sym dry ∙ real) in
    (no_backup, λ real. absurd (not_real real), λ real. absurd (not_real real))

-- If a pass that is a dry run finds the configuration, has certificates to renew, returns without an
-- error and leaves its node Idle, it has changed no file outside the backup directory, and yet the
-- status names a moment of the clock as that of the last renewal, of the node and of the cluster.
-- The condition: the API server accepts each status patch and answers with what it was sent.
pub reconcile-Recorded :
    (env : Env) (json : Json) (node : String) (spec : CertRotationConfigSpec)
    (status : CertRotationConfigStatus) (r : DetectionResult) (w : World) {d : ℤ} {v w' : World}
    → Accepts env
    → spec.dry_run ≡ true
    → env.get w.calls ≡ found spec status
    → detect env
        (detector_of spec)
        node
        (set_node_phase env node NodePhase.detecting ""
          (record w { calls = w.calls + 1; status = status })).1
      ≡ (ok r, v)
    → needs_renewal r ≡ true
    → reconcile env json node w ≡ (ok d, w')
    → phase_of node w'.status ≡ NodePhase.idle
    → ((q : FilePath) → is_prefix spec.backup_dir q ≡ false → w'.files q ≡ w.files q)
      × Recorded env node w'.status
reconcile-Recorded env json node spec status r w {d} {v} {w'} accepts dry fetched detected needed
      done idle =
    let p =
      reconcile-Passed env accepts json node spec r needed status w fetched detected done idle in
    (
      λ q no_backup.
          ap (λ m. m.1.files q) (sym done)
          ∙ reconcile-keeps env json node q w λ s st e.
            subst (Outside q) (ap (spec_in spec) (sym fetched ∙ e))
              (dry-Outside spec q dry no_backup),
      (Leaves-ok _ _ p.ended (on_success-Recorded env node accepts json spec) p.rest).same,
    )
