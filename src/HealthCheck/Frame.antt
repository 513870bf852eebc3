-- ===== src/HealthCheck/Frame.antt =====
-- Health checks change no file.
use cert_rotator.Base.{ℕ, zero, suc, ◌+◌, String, List, [], ◌∷◌, Option, ◌⊎◌, inl, inr}
use cert_rotator.Base.Int.{ℤ}
use cert_rotator.Api.{FilePath}
use cert_rotator.Host.{Env, Error, File, Exec}
use cert_rotator.Host.Keeps.{Keeps, Keeps-bind}
use cert_rotator.Host.Frame.{FileIs, file_rules}
use cert_rotator.HealthCheck.{
  Checker, Component, control_plane_components, check, check_each, check_all, after_round, retry,
  check_all_with_retry, tcp_probe, http_probe, expect_ok,
}

module _ {q : FilePath} {x : Option File} (env : Env) where
  expect_ok-FileIs : (url : String) (status : ℕ) → Keeps (FileIs q x) (expect_ok url status)
  unfolding expect_ok
  expect_ok-FileIs url status = search file_rules

  tcp_probe-FileIs : (addr : String) → Keeps (FileIs q x) (tcp_probe env addr)
  unfolding tcp_probe
  tcp_probe-FileIs addr = search file_rules

  http_probe-FileIs : (url : String) → Keeps (FileIs q x) (http_probe env url)
  unfolding http_probe
  http_probe-FileIs url = search (file_rules, expect_ok-FileIs)

  check-FileIs : (c : Checker) (comp : Component) → Keeps (FileIs q x) (check env c comp)
  unfolding check
  check-FileIs c comp = search (file_rules, tcp_probe-FileIs, http_probe-FileIs)

  check_each-FileIs :
      (c : Checker) (comps : List Component) → Keeps (FileIs q x) (check_each env c comps)
  unfolding check_each
  check_each-FileIs c [] = search file_rules
  check_each-FileIs c (comp ∷ comps) =
      Keeps-bind _ _ (search (file_rules, check-FileIs)) (λ _. check_each-FileIs c comps)

  check_all-FileIs : (c : Checker) → Keeps (FileIs q x) (check_all env c)
  unfolding check_all
  check_all-FileIs c = check_each-FileIs c control_plane_components

  after_round-FileIs :
      (c : Checker) (max interval n : ℕ) (again : Exec (Unit {0}))
      → Keeps (FileIs q x) again
      → (r : Error ⊎ Unit {0}) → Keeps (FileIs q x) (after_round c max interval n again r)
  unfolding after_round
  after_round-FileIs c max interval n again k (inl e) = search file_rules
  after_round-FileIs c max interval n again k (inr _) = search file_rules

  retry-FileIs :
      (c : Checker) (max interval rounds n : ℕ)
      → Keeps (FileIs q x) (retry env c max interval rounds n)
  unfolding retry
  retry-FileIs c max interval zero n = search file_rules
  retry-FileIs c max interval (suc rounds) n =
      Keeps-bind _ _ (search (file_rules, check_all-FileIs))
        (after_round-FileIs c max interval n _ (retry-FileIs c max interval rounds (n + 1)))

  pub check_all_with_retry-FileIs :
      (c : Checker) (max : ℤ) (interval : ℕ)
      → Keeps (FileIs q x) (check_all_with_retry env c max interval)
  unfolding check_all_with_retry
  check_all_with_retry-FileIs c max interval = search (file_rules, retry-FileIs)
