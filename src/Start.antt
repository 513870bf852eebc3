-- ===== src/Start.antt =====
-- The start of the daemon (cmd/main.go, with NodeNameFromEnv and SetupWithManager of
-- internal/controller/certrotationconfig_controller.go).
pub mod Booted
pub mod Validated
use cert_rotator.Base.{
  ℕ, String, ◌<>◌, Bool, true, false, List, [], ◌∷◌, ◌++◌, Option, none, some, ◌⊎◌, inl, inr, ◌==◌,
  string_eq, if◌then◌else◌,
}
use cert_rotator.Api.{FilePath}
use cert_rotator.Config.{Vars}
use cert_rotator.Host.{
  Env, Error, not_exist, message, text, path_text, World, Exec, pure, fail, attempt, fallible,
  ◌>>=◌, ◌>>◌,
}

-- `metrics-bind-address`, `health-probe-bind-address` and `leader-elect` after `flag.Parse`.
pub record Flags : Type 0 where
  pub metrics_addr : String
  pub probe_addr : String
  pub enable_leader_election : Bool

-- The answers of controller-runtime: the error of each call, if it has one.
pub record Framework : Type 0 where
  -- `GetConfigOrDie` ends the process with the exit code 1 on this error
  pub get_config : Option Error
  pub new_manager : Flags → Option Error
  -- `NewControllerManagedBy(mgr).For(…).Complete(r)`
  pub complete : Option Error
  pub add_healthz_check : Option Error
  pub add_readyz_check : Option Error
  -- it returns when the process is told to end
  pub start : Option Error

-- What is done to the manager. `controlling` has the node of the reconciler that is registered.
pub data Step : Type 0 where
  managing : Flags → Step
  controlling : String → Step
  healthz : Step
  readyz : Step
  started : String → Step

unfoldable pub node_name_from_env : Vars → Error ⊎ String
node_name_from_env vars =
    let name = vars "MY_NODE_NAME" in
    if name == "" then inl (message "MY_NODE_NAME environment variable not set") else inr name

abbrev answer : Option Error → Error ⊎ Unit {0}
answer none = inr tt
answer (some e) = inl e

unfoldable pub setup_with_manager : Framework → String → Error ⊎ Unit {0}
setup_with_manager fw node_name =
    if node_name == ""
    then inl (message "NodeName must be set — inject MY_NODE_NAME via downward API")
    else answer fw.complete

-- The exit code, and the steps in their order.
abbrev pub Run : Type 0
Run = ℕ × List Step

-- `os.Exit(1)` on an error; the step and what follows it otherwise.
unfoldable pub after : Error ⊎ Unit {0} → Step → Run → Run
after (inl e) step rest = (1, [])
after (inr _) step rest = (rest.0, step ∷ rest.1)

-- `mgr.Start` is called before it answers.
unfoldable pub run_manager : Framework → String → Run
run_manager fw node_name = (elim fw.start [ none ↦ 0 | some e ↦ 1 ], started node_name ∷ [])

unfoldable pub run_node : Framework → Flags → String → Run
run_node fw flags node_name = elim fw.get_config [
  | some e ↦ (1, [])
  | none ↦ after (answer (fw.new_manager flags)) (managing flags) (
      after (setup_with_manager fw node_name) (controlling node_name) (
        after (answer fw.add_healthz_check) healthz
          (after (answer fw.add_readyz_check) readyz (run_manager fw node_name))))
]

unfoldable pub main : Framework → Flags → Vars → Run
main fw flags vars = elim (node_name_from_env vars) [
  | inl e ↦ (1, [])
  | inr node_name ↦ run_node fw flags node_name
]

abbrev pub required_env_vars : List String
required_env_vars = "MY_NODE_NAME" ∷ []

abbrev pub required_paths : List FilePath
required_paths =
    ("etc" ∷ "kubernetes" ∷ "pki" ∷ []) ∷ ("etc" ∷ "kubernetes" ∷ "manifests" ∷ []) ∷ []

-- `os.Stat` of a file or a directory
abbrev found : Bool → Option cert_rotator.Host.File → FilePath → Exec (Unit {0})
found true f p = pure tt
found false (some f) p = pure tt
found false none p = fail (not_exist ("stat " <> path_text p <> ": no such file or directory"))

unfoldable pub stat_path : Env → FilePath → Exec (Unit {0})
stat_path env p = fallible env (λ w. found (w.dirs p) (w.files p) p w)

unfoldable pub check_path : FilePath → Error ⊎ Unit {0} → Exec (Unit {0})
check_path p (inl e) = fail (
    message (
      "required host path "
      <> path_text p
      <> " is not accessible: "
      <> text e
      <> " — check hostPath mounts in DaemonSet spec"))
check_path p (inr _) = pure tt

unfoldable pub check_paths : Env → List FilePath → Exec (Unit {0})
check_paths env [] = pure tt
check_paths env (p ∷ paths) = do
  r ← attempt (stat_path env p)
  check_path p r
  check_paths env paths

unfoldable pub check_vars : Vars → List String → Exec (Unit {0})
check_vars vars [] = pure tt
check_vars vars (v ∷ names) =
    if vars v == ""
    then fail (message ("required environment variable " <> v <> " is not set"))
    else check_vars vars names

-- Nothing calls it.
unfoldable pub validate_environment : Env → Vars → Exec (Unit {0})
validate_environment env vars = do check_vars vars required_env_vars; check_paths env required_paths
