-- ===== src/Start/Validated.antt =====
-- What a validated environment has.
use mathlib.Core.Path.{subst}
use cert_rotator.Base.{
  ◌+◌, true, List, [], ◌∷◌, some, ◌⊎◌, inl, inr, All, ◌==◌, string_eq, ◌≡◌, ◌≢◌, arith, Bool-cases,
  Option-cases,
}
use cert_rotator.Api.{FilePath}
use cert_rotator.Config.{Vars}
use cert_rotator.Host.{
  Env, Error, File, refused, torn, World, ok, pure, fail, attempt, fallible, next_call, ◌>>=◌,
}
use cert_rotator.Host.Inversion.{>>=-eq-ok}
use cert_rotator.Start.{
  required_paths, stat_path, check_path, check_paths, check_vars, validate_environment,
}

-- A file or a directory is there.
abbrev pub IsThere : World → FilePath → Type 0
IsThere w p = (w.dirs p ≡ true) ⊎ ((f : File) × (w.files p ≡ some f))

-- It is there, and the only change is that a call was made.
record Checked (p : FilePath) (w w' : World) : Type 0 where
  is_there : IsThere w p
  called : w' ≡ record w { calls = w.calls + 1 }

check_one :
    (env : Env) (p : FilePath) (w w' : World) {r : Error ⊎ Unit {0}} {w1 : World}
    → attempt (stat_path env p) w ≡ (ok r, w1)
    → check_path p r w1 ≡ (ok tt, w')
    → Checked p w w'
unfolding stat_path check_path attempt fallible fail pure next_call ◌>>=◌
check_one env p w w' stated checked = elim (Option-cases (env.fault w.calls)) [
  | inr (refused s, faulty) ↦ absurd (ground (arith, faulty, stated, checked))
  | inr (torn s part, faulty) ↦ absurd (ground (arith, faulty, stated, checked))
  | inl fine ↦ elim (Bool-cases (w.dirs p)) [
    | inl there ↦ record {
      is_there = inl there;
      called = ground (arith, fine, there, stated, checked);
    }
    | inr absent ↦ elim (Option-cases (w.files p)) [
      | inl missing ↦ absurd (ground (arith, fine, absent, missing, stated, checked))
      | inr (f, there) ↦ record {
        is_there = inr (f, there);
        called = ground (arith, fine, absent, there, stated, checked);
      }
    ]
  ]
]

check_paths-ok :
    (env : Env) (paths : List FilePath) (w w' : World)
    → check_paths env paths w ≡ (ok tt, w')
    → All (IsThere w) paths
unfolding check_paths
check_paths-ok env [] w w' done = tt
check_paths-ok env (p ∷ paths) w w' done =
    let (r, w1, stated, checking) = >>=-eq-ok (attempt (stat_path env p)) _ w done in
    let (_, w2, checked, rest) = >>=-eq-ok (check_path p r) _ w1 checking in
    let here = check_one env p w w2 stated checked in
    (
      here.is_there,
      subst (λ v. All (IsThere v) paths) here.called (check_paths-ok env paths w2 w' rest),
    )

-- The environment is only accepted if MY_NODE_NAME is set to a name that is not empty, and the
-- directories of the certificates and of the manifests are there.
pub validate_environment-ok :
    (env : Env) (vars : Vars) (w w' : World)
    → validate_environment env vars w ≡ (ok tt, w')
    → (vars "MY_NODE_NAME" ≢ "") × All (IsThere w) required_paths
unfolding validate_environment check_vars pure fail
validate_environment-ok env vars w w' done =
    let (_, w1, named, paths) = >>=-eq-ok _ _ w done in
    elim (Bool-cases (vars "MY_NODE_NAME" == "")) [
      | inl unnamed ↦ absurd (ground (arith, unnamed, named))
      | inr is_named ↦
          let same : w1 ≡ w = ground (arith, is_named, named) in
          (
            ground (arith, is_named),
            subst (λ v. All (IsThere v) required_paths) same (check_paths-ok env _ w1 w' paths),
          )
    ]
