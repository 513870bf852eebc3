-- ===== src/Controller/Fresh.antt =====
-- A pass that leaves its node Idle has renewed what was due.
use cert_rotator.Base.{
  ◌+◌, String, Bool, true, false, List, ◌∷◌, [], ◌++◌, any, ◌≡◌, ◌≢◌, ap, ◌∙◌, arith,
}
use cert_rotator.Base.Int.{ℤ}
use cert_rotator.Api.{CertRotationConfigSpec, CertRotationConfigStatus, NodePhase, node_phase_eq}
use cert_rotator.Host.{Env, World, ok, found}
use cert_rotator.Detector
use cert_rotator.Detector.{
  CertInfo, DetectionResult, detect, needs_renewal, is_not_ok, cert_status_eq,
}
use cert_rotator.Signer.{ca_for_cert}
use cert_rotator.State.{Json}
use cert_rotator.Controller.{detector_of, reconcile}
use cert_rotator.Controller.Phase.{phase_of}
use cert_rotator.Controller.Holds.{Accepts}
use cert_rotator.Controller.Passed.{reconcile-Passed}
use cert_rotator.Controller.Renewal.Complete.{IsApart, run_renewal-Renewed}
use cert_rotator.Controller.Renewal.Issued.{Renewed}
use cert_rotator.Controller.Renewal.Pipeline.{IsSafe, Others, AtItsPath, Renewed-between}
use cert_rotator.Controller.Status.{set_node_phase}

any-split :
    (f : CertInfo → Bool) (before : List CertInfo) (info : CertInfo) (after : List CertInfo)
    → f info ≡ true
    → any f (before ++ (info ∷ after)) ≡ true
any-split f [] info after here = ground (arith, here)
any-split f (c ∷ before) info after here = ground (arith, any-split f before info after here)

module _ (env : Env) (accepts : Accepts env) (json : Json) (node : String)
    (spec : CertRotationConfigSpec) (real : spec.dry_run ≡ false) (is_apart : IsApart spec)
    (before : List CertInfo) (info : CertInfo) (after : List CertInfo)
    (others_1 : Others info before) (others_2 : Others info after)
    (due : info.status ≢ Detector.CertStatus.ok) (at_path : AtItsPath spec info)
    (ca_safe : IsSafe spec (ca_for_cert info.name).0)
    (key_safe : IsSafe spec (ca_for_cert info.name).1) where
  is_due : is_not_ok info ≡ true
  is_due = ground (arith, due)

  -- If a pass that is no dry run finds the configuration, returns without an error and leaves its
  -- node Idle, each certificate that its detection reported as not OK is renewed: where the writer
  -- has the files of its name there are, in PEM, a certificate and the key that was generated for it,
  -- and the certificate was created with the CA certificate and the CA key that were in the files
  -- for its name before the pass, for a template that mirrors the certificate that was at its path
  -- before the pass and is valid from ten minutes before the moment of its making to 365 days after
  -- it. The conditions: the API server accepts each status patch and answers with what it was sent,
  -- no other certificate of the detection has this one's name, its path is the one that the writer
  -- has for its name, and the CA's files, the backups, the manifests and the files of the
  -- certificates do not overlap.
  pub reconcile-Renewed :
      (status : CertRotationConfigStatus) (r : DetectionResult) (w : World) {d : ℤ} {v w' : World}
      → env.get w.calls ≡ found spec status
      → r.certs ≡ before ++ (info ∷ after)
      → detect env
          (detector_of spec)
          node
          (set_node_phase env node NodePhase.detecting ""
            (record w { calls = w.calls + 1; status = status })).1
        ≡ (ok r, v)
      → reconcile env json node w ≡ (ok d, w')
      → phase_of node w'.status ≡ NodePhase.idle
      → Renewed env spec info w w'
  unfolding needs_renewal
  reconcile-Renewed status r w {d} {v} {w'} fetched split detected done idle =
      let needed : any is_not_ok r.certs ≡ true =
        ap (any is_not_ok) split ∙ any-split is_not_ok before info after is_due in
      let p =
        reconcile-Passed env accepts json node spec r needed status w fetched detected done idle in
      let renewed =
        run_renewal-Renewed env node spec r before info after p.begun p.ended real split others_1
          others_2 due at_path ca_safe key_safe is_apart p.is_ok in
      Renewed-between env spec info p.begun p.ended w w' renewed (p.same_before _) (p.same_before _)
        (p.same_before _) (p.same_after _) (p.same_after _)
