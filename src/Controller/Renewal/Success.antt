-- ===== src/Controller/Renewal/Success.antt =====
-- What a renewal that succeeds has done.
use cert_rotator.Base.{
  ℕ, suc, String, false, List, [], ◌∷◌, Option, none, some, ◌==◌, string_eq, if◌then◌else◌, ◌≡◌,
  ◌≢◌, refl, arith, All,
}
use cert_rotator.Base.Int.{pos}
use cert_rotator.Base.Dict.{lookup}
use cert_rotator.Api.{FilePath, CertRotationConfigSpec}
use cert_rotator.Host.{Env, Bytes, World, ok, pure, fail}
use cert_rotator.Host.Inversion.{>>=-eq-ok, wrap-eq-ok}
use cert_rotator.Detector.{CertInfo, DetectionResult, cert_status_eq}
use cert_rotator.Detector
use cert_rotator.HealthCheck.{Checker, check_all}
use cert_rotator.HealthCheck.Rounds.{check_all_with_retry-ok}
use cert_rotator.Writer.{cert_paths}
use cert_rotator.Controller.Renewal.{
  write_renewed, renew_cert, renew_each, renew_and_restart, run_renewal, timeout_of,
}

-- The writer knows where the certificate goes.
abbrev pub HasPath : CertInfo → Type 0
HasPath info = (paths : FilePath × FilePath) × (lookup info.name cert_paths ≡ some paths)

write_renewed_path :
    (env : Env) (spec : CertRotationConfigSpec) (name : String) (pems : Bytes × Bytes)
    (found : Option (FilePath × FilePath)) (w : World) {w' : World}
    → write_renewed env spec name pems found w ≡ (ok tt, w')
    → (paths : FilePath × FilePath) × (found ≡ some paths)
unfolding write_renewed fail
write_renewed_path env spec name pems none w done = absurd (cc)
write_renewed_path env spec name pems (some paths) w done = (paths, refl)

renew_cert_path :
    (env : Env) (spec : CertRotationConfigSpec) (info : CertInfo) (w : World) {w' : World}
    → renew_cert env spec info w ≡ (ok tt, w')
    → HasPath info
unfolding renew_cert
renew_cert_path env spec info w done =
    let (_, w1, _, d1) = >>=-eq-ok _ _ w done in
    let (_, w2, _, d2) = >>=-eq-ok _ _ w1 d1 in
    let (_, w3, _, d3) = >>=-eq-ok _ _ w2 d2 in
    let (pems, w4, _, d4) = >>=-eq-ok _ _ w3 d3 in
    write_renewed_path env spec info.name pems (lookup info.name cert_paths) w4 d4

-- The branch of the loop for a certificate that is not OK.
pub not_ok_branch :
    (env : Env) (spec : CertRotationConfigSpec) (info : CertInfo) (w : World) {w1 : World}
    → info.status ≢ Detector.CertStatus.ok
    → (if info.status == Detector.CertStatus.ok then pure tt else renew_cert env spec info) w
      ≡ (ok tt, w1)
    → renew_cert env spec info w ≡ (ok tt, w1)
not_ok_branch env spec info w ne done = ground (arith, ne, done)

renew_each_paths :
    (env : Env) (spec : CertRotationConfigSpec) (certs : List CertInfo) (w : World) {w' : World}
    → renew_each env spec certs w ≡ (ok tt, w')
    → All (λ info. info.status ≢ Detector.CertStatus.ok → HasPath info) certs
unfolding renew_each
renew_each_paths env spec [] w done = tt
renew_each_paths env spec (info ∷ certs) w done =
    let (_, w1, e1, d1) = >>=-eq-ok _ _ w done in
    (
      λ ne. renew_cert_path env spec info w (not_ok_branch env spec info w ne e1),
      renew_each_paths env spec certs w1 d1,
    )

renew_and_restart_done :
    (env : Env) (node : String) (spec : CertRotationConfigSpec) (detected : DetectionResult) (n : ℕ)
    (w : World) {w' : World}
    → spec.health_check_max_attempts ≡ pos (suc n)
    → renew_and_restart env node spec detected w ≡ (ok tt, w')
    → All (λ info. info.status ≢ Detector.CertStatus.ok → HasPath info) detected.certs
      × (w1 : World) × (check_all env
            (record { node = node; timeout = timeout_of spec; dry_run = false })
            w1
          ≡ (ok tt, w'))
unfolding renew_and_restart
renew_and_restart_done env node spec detected n w {w'} attempts done =
    let (_, w1, e1, d1) = >>=-eq-ok _ _ w done in
    let (_, w2, _, d2) = >>=-eq-ok _ _ w1 d1 in
    let checker : Checker = record { node = node; timeout = timeout_of spec; dry_run = false } in
    let (w3, healthy) =
      check_all_with_retry-ok env checker n 15 w2 w' refl (rw attempts at (wrap-eq-ok _ _ w2 d2)) in
    (renew_each_paths env spec detected.certs w e1, w3, healthy)

-- If a renewal succeeds, is no dry run and allows at least one attempt at the health check, the
-- writer has a path for each certificate that was not OK, and the last thing done was a round of
-- health checks in which every component of the control plane passed.
pub run_renewal-ok :
    (env : Env) (node : String) (spec : CertRotationConfigSpec) (detected : DetectionResult) (n : ℕ)
    (w w' : World)
    → spec.dry_run ≡ false
    → spec.health_check_max_attempts ≡ pos (suc n)
    → run_renewal env node spec detected w ≡ (ok tt, w')
    → All (λ info. info.status ≢ Detector.CertStatus.ok → HasPath info) detected.certs
      × (w1 : World) × (check_all env
            (record { node = node; timeout = timeout_of spec; dry_run = false })
            w1
          ≡ (ok tt, w'))
unfolding run_renewal
run_renewal-ok env node spec detected n w w' real attempts done =
    let (b, w1, _, d1) = >>=-eq-ok _ _ w done in
    let (_, w2, _, d2) = >>=-eq-ok _ _ w1 d1 in
    renew_and_restart_done env node spec detected n w2 attempts (ground (arith, real, d2))
