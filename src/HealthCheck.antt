-- ===== src/HealthCheck.antt =====
-- Health checks of the control plane's components (pkg/healthcheck/healthcheck.go).
pub mod Answers
pub mod Rounds
pub mod Sleeps
pub mod Detailed
pub mod Frame
use cert_rotator.Base.{
  ℕ, zero, suc, ◌+◌, String, ◌<>◌, Bool, true, false, List, [], ◌∷◌, ◌⊎◌, inl, inr, ◌==◌, nat_eq,
  if◌then◌else◌, Option, none, some,
}
use cert_rotator.Base.Int.{ℤ, pos_part}
use cert_rotator.Base.Decimal.{itoa}
use cert_rotator.Host.{
  Env, Error, message, wrapped, Exec, pure, fail, wrap, attempt, sleep, dial, http_get, ◌>>=◌, ◌>>◌,
}

pub record Component : Type 0 where
  pub name : String
  pub port : ℕ
  pub path : String
  pub scheme : String

abbrev component : String → ℕ → String → Component
component name port path = record { name = name; port = port; path = path; scheme = "https" }

abbrev pub control_plane_components : List Component
control_plane_components =
    component "etcd" 2379 "/health"
    ∷ component "kube-apiserver" 6443 "/healthz"
    ∷ component "kube-controller-manager" 10257 "/healthz"
    ∷ component "kube-scheduler" 10259 "/healthz"
    ∷ []

-- The timeout bounds each probe; what a probe answers is the outside's.
pub record Checker : Type 0 where
  pub node : String
  pub timeout : ℤ
  pub dry_run : Bool

unfoldable pub addr_of : Checker → Component → String
addr_of c comp = c.node <> ":" <> itoa comp.port

unfoldable pub url_of : Checker → Component → String
url_of c comp = comp.scheme <> "://" <> addr_of c comp <> comp.path

unfoldable pub tcp_probe : Env → String → Exec (Unit {0})
tcp_probe env addr = wrap ("cannot connect to " <> addr) (dial env addr)

unfoldable pub expect_ok : String → ℕ → Exec (Unit {0})
expect_ok url status =
    if status == 200
    then pure tt
    else fail (message ("unhealthy response from " <> url <> ": HTTP " <> itoa status))

unfoldable pub http_probe : Env → String → Exec (Unit {0})
http_probe env url = do
  status ← wrap ("HTTP GET " <> url <> " failed") (http_get env url)
  expect_ok url status

unfoldable pub check : Env → Checker → Component → Exec (Unit {0})
check env c comp = do
  wrap ("TCP probe failed for " <> comp.name <> " on " <> addr_of c comp)
      (tcp_probe env (addr_of c comp))
  wrap ("HTTP probe failed for " <> comp.name <> " at " <> url_of c comp)
      (http_probe env (url_of c comp))

unfoldable pub check_each : Env → Checker → List Component → Exec (Unit {0})
check_each env c [] = pure tt
check_each env c (comp ∷ comps) = do
  wrap ("health check failed for " <> comp.name) (check env c comp)
  check_each env c comps

unfoldable pub check_all : Env → Checker → Exec (Unit {0})
check_all env c = check_each env c control_plane_components

-- What follows a round: `again` is the next one, after the sleep.
unfoldable pub after_round :
    Checker → ℕ → ℕ → ℕ → Exec (Unit {0}) → Error ⊎ Unit {0} → Exec (Unit {0})
after_round c max interval attempt_no again (inl e) =
    if attempt_no == max
    then fail (wrapped ("health check failed after " <> itoa max <> " attempts on " <> c.node) e)
    else (sleep interval >> again)
after_round c max interval attempt_no again (inr _) = pure tt

-- `for attempt := 1; attempt <= maxAttempts; attempt++`, with the rounds that are left.
unfoldable pub retry : Env → Checker → ℕ → ℕ → ℕ → ℕ → Exec (Unit {0})
retry env c max interval zero attempt_no = pure tt
retry env c max interval (suc rounds) attempt_no = do
  r ← attempt (check_all env c)
  after_round c max interval attempt_no (retry env c max interval rounds (attempt_no + 1)) r

-- The interval is in seconds. A number of attempts below 1 leaves no round.
unfoldable pub check_all_with_retry : Env → Checker → ℤ → ℕ → Exec (Unit {0})
check_all_with_retry env c max_attempts interval =
    if c.dry_run
    then pure tt
    else retry env c (pos_part max_attempts) interval (pos_part max_attempts) 1

unfoldable pub tcp_each : Env → Checker → List Component → Exec (Unit {0})
tcp_each env c [] = pure tt
tcp_each env c (comp ∷ comps) = do
  wrap ("TCP check failed for " <> comp.name <> " on " <> addr_of c comp)
      (tcp_probe env (addr_of c comp))
  tcp_each env c comps

unfoldable pub tcp_only_check : Env → Checker → Exec (Unit {0})
tcp_only_check env c = if c.dry_run then pure tt else tcp_each env c control_plane_components

pub record Result : Type 0 where
  pub node : String
  pub healthy : Bool
  pub components : List (String × Option Error)

-- One entry for each component. No two components share a name.
unfoldable pub note_check : Component → Result → Error ⊎ Unit {0} → Result
note_check comp res (inl e) = record res {
  healthy = false;
  components = (comp.name, some e) ∷ res.components;
}
note_check comp res (inr _) = record res { components = (comp.name, none) ∷ res.components }

unfoldable pub detail_each : Env → Checker → List Component → Result → Exec Result
detail_each env c [] res = pure res
detail_each env c (comp ∷ comps) res = do
  r ← attempt (check env c comp)
  detail_each env c comps (note_check comp res r)

unfoldable pub check_all_detailed : Env → Checker → Exec Result
check_all_detailed env c =
    detail_each env c control_plane_components
      (record { node = c.node; healthy = true; components = [] })
