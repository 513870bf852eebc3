-- ===== src/HealthCheck/Answers.antt =====
-- What a healthy round is.
use cert_rotator.Base.{ℕ, ◌+◌, List, [], ◌∷◌, inr, none, nat_eq, ◌≡◌, ap, sym, ◌∙◌, arith}
use cert_rotator.Host.{
  Env, dialled, requested, World, ok, pure, fail, wrap, lift, emit, next_call, dial, http_get,
  ◌>>=◌,
}
use cert_rotator.Host.Inversion.{>>=-eq-ok, wrap-eq-ok}
use cert_rotator.HealthCheck.{
  Checker, Component, control_plane_components, addr_of, url_of, tcp_probe, expect_ok, http_probe,
  check, check_each, check_all,
}

-- The answers to the probes of these components, the first of which is the call number n: each
-- accepts a connection and then answers 200.
abbrev pub Answers : Env → Checker → List Component → ℕ → Type 0
Answers env c [] n = Unit
Answers env c (comp ∷ comps) n =
    (env.dial n (addr_of c comp) ≡ none)
    × (env.http_get (n + 1) (url_of c comp) ≡ inr 200)
    × Answers env c comps (n + 2)

-- The world after the probes: two calls for each component, in the order of the list.
abbrev pub probed : Checker → List Component → World → World
probed c [] w = w
probed c (comp ∷ comps) w = probed c comps (record w {
  calls = w.calls + 2;
  trace = requested (url_of c comp) ∷ dialled (addr_of c comp) ∷ w.trace;
})

check_lem :
    (env : Env) (c : Checker) (comp : Component) (w : World) {w' : World}
    → check env c comp w ≡ (ok tt, w')
    → (env.dial w.calls (addr_of c comp) ≡ none)
      × (env.http_get (w.calls + 1) (url_of c comp) ≡ inr 200)
      × (w' ≡ record w {
        calls = w.calls + 2;
        trace = requested (url_of c comp) ∷ dialled (addr_of c comp) ∷ w.trace;
      })
unfolding check tcp_probe http_probe expect_ok dial http_get next_call emit pure fail lift wrap
    ◌>>=◌
check_lem env c comp w done = ground arith

check_each_lem :
    (env : Env) (c : Checker) (comps : List Component) (w : World) {w' : World}
    → check_each env c comps w ≡ (ok tt, w')
    → Answers env c comps w.calls × (w' ≡ probed c comps w)
unfolding check_each pure
check_each_lem env c [] w done = (tt, ap (λ r. r.1) (sym done))
check_each_lem env c (comp ∷ comps) w {w'} done =
    let (_, w1, e1, done1) = >>=-eq-ok _ _ w done in
    let (dialled_ok, got_ok, same) = check_lem env c comp w (wrap-eq-ok _ _ w e1) in
    let (rest, same') = check_each_lem env c comps w1 done1 in
    ((dialled_ok, got_ok, rw (ap (λ v. v.calls) same) at rest), same' ∙ ap (probed c comps) same)

-- A health check that succeeds has probed etcd, the API server, the controller manager and the
-- scheduler in this order, each over TCP and then over HTTP, has done nothing else, and each of the
-- probes was answered, the HTTP ones with status 200.
pub check_all_lem :
    (env : Env) (c : Checker) (w w' : World)
    → check_all env c w ≡ (ok tt, w')
    → Answers env c control_plane_components w.calls × (w' ≡ probed c control_plane_components w)
unfolding check_all
check_all_lem env c w w' done = check_each_lem env c control_plane_components w done
