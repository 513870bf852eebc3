-- ===== src/HealthCheck/Detailed.antt =====
-- What the detailed health check reports.
use mathlib.Core.Path.{subst}
use cert_rotator.Base.{
  String, Bool, true, false, List, [], ◌∷◌, all, Option, none, some, ◌⊎◌, inl, inr, ◌≡◌, refl, ap,
  sym,
}
use cert_rotator.Host.{Env, Error, World, ok, err, attempt}
use cert_rotator.Host.Inversion.{>>=-eq-ok, attempt-eq-ok}
use cert_rotator.Host.Written.{pure-ok}
use cert_rotator.HealthCheck.{
  Checker, Component, control_plane_components, Result, note_check, check, detail_each,
  check_all_detailed,
}

abbrev pub Entries : Type 0
Entries = List (String × Option Error)

abbrev pub passed : String × Option Error → Bool
passed (_, none) = true
passed (_, some e) = false

-- The components are checked one after the other, from the first world to the last. Each has an
-- entry with its name, without an error if its check succeeded and with the error of its check if
-- it failed; the entries come before those that were there, newest first.
abbrev pub Checked : Env → Checker → List Component → World → Entries → World → Entries → Type 0
Checked env c [] w before w' after = (w ≡ w') × (before ≡ after)
Checked env c (comp ∷ comps) w before w' after =
    (w1 : World) × (((check env c comp w ≡ (ok tt, w1))
        × Checked env c comps w1 ((comp.name, none) ∷ before) w' after)
      ⊎ ((e : Error) × (check env c comp w ≡ (err e, w1))
          × Checked env c comps w1 ((comp.name, some e) ∷ before) w' after))

-- The verdict is that of the entries.
abbrev IsFair : Result → Type 0
IsFair r = r.healthy ≡ all passed r.components

note_check-IsFair :
    (comp : Component) (r : Result) (e : Error ⊎ Unit {0}) → IsFair r → IsFair (note_check comp r e)
unfolding note_check
note_check-IsFair comp r (inl e) fair = refl
note_check-IsFair comp r (inr _) fair = fair

module _ (env : Env) (c : Checker) where
  detail_each-ok :
      (comps : List Component) (w : World) (res : Result) {r : Result} {w' : World}
      → detail_each env c comps res w ≡ (ok r, w')
      → IsFair res
      → IsFair r × (r.node ≡ res.node) × Checked env c comps w res.components w' r.components
  unfolding detail_each note_check
  detail_each-ok [] w res {r} done fair =
      let (same, stay) = pure-ok res w done in
      (subst IsFair same fair, ap Result.node (sym same), (stay, ap Result.components same))
  detail_each-ok (comp ∷ comps) w res {r} {w'} done fair =
      let (answer, w1, tried, later) = >>=-eq-ok (attempt (check env c comp)) _ w done in
      let on_answer = λ (x : Error ⊎ Unit {0}) (same : answer ≡ x).
        detail_each-ok comps w1 (note_check comp res x)
          (subst (λ y. detail_each env c comps (note_check comp res y) w1 ≡ (ok r, w')) same later)
          (note_check-IsFair comp res x fair) in
      elim (attempt-eq-ok (check env c comp) w tried) [
        | inl (e, is_e, failed) ↦
            let (is_fair, same, checked) = on_answer (inl e) is_e in
            (is_fair, same, (w1, inr (e, failed, checked)))
        | inr (_, is_ok, succeeded) ↦
            let (is_fair, same, checked) = on_answer (inr tt) is_ok in
            (is_fair, same, (w1, inl (succeeded, checked)))
      ]

-- A detailed health check that returns has checked the four components one after the other, each
-- whatever the others answered. Its report is about the node that was asked for, has one entry for
-- each component, without an error just if its check succeeded and with the error of its check
-- otherwise, and calls the node healthy just if none of the entries is an error.
pub check_all_detailed_lem :
    (env : Env) (c : Checker) (w : World) (r : Result) (w' : World)
    → check_all_detailed env c w ≡ (ok r, w')
    → (r.healthy ≡ all passed r.components)
      × (r.node ≡ c.node)
      × Checked env c control_plane_components w [] w' r.components
unfolding check_all_detailed
check_all_detailed_lem env c w r w' done =
    detail_each-ok env c control_plane_components w
      (record { node = c.node; healthy = true; components = [] }) done refl
