-- ===== src/Rollback.antt =====
-- Rollback of nodes to their backups (pkg/rollback/rollback.go).
pub mod Nil
pub mod Reverse
pub mod Order
pub mod Outcome
pub mod Calm
pub mod Returned
pub mod Restored
use cert_rotator.Base.{
  ℕ, zero, suc, ◌+◌, ◌-◌, String, ◌<>◌, Bool, true, false, not, List, [], ◌∷◌, any, contains,
  length, Option, none, some, ◌⊎◌, inl, inr, ◌==◌, string_eq, path_eq, if◌then◌else◌, ltb,
  get_elem?, set,
}
use cert_rotator.Base.Int.{ℤ, pos}
use cert_rotator.Base.Dict.{lookup}
use cert_rotator.Api.{Time, FilePath}
use cert_rotator.Host.{
  Env, Error, message, text, Exec, pure, crash, wrap, attempt, now, ◌>>=◌, ◌>>◌,
}
use cert_rotator.Backup
use cert_rotator.PodRestart
use cert_rotator.HealthCheck.{check_all_with_retry}
use cert_rotator.State.{State, NodeState, Json, entries, set_node_rollback}

pub record RollbackResult : Type 0 where
  pub node : String
  pub success : Bool
  pub error : Option Error
  pub restored_at : Option Time

pub record Manager : Type 0 where
  pub backup_mgr : Backup.Manager
  pub restart_mgr : PodRestart.Manager
  pub state_file : FilePath
  pub dry_run : Bool

-- `xs[i], xs[j] = xs[j], xs[i]`
unfoldable pub swap : List String → ℕ → ℕ → List String
swap xs i j = elim (get_elem? xs i) [
  | none ↦ xs
  | some a ↦ elim (get_elem? xs j) [ none ↦ xs | some b ↦ set (set xs i b) j a ]
]

-- `for i, j := 0, len(cp)-1; i < j; i, j = i+1, j-1`. The length is fuel enough.
unfoldable pub swap_loop : ℕ → ℕ → ℕ → List String → List String
swap_loop zero i j xs = xs
swap_loop (suc fuel) i j xs =
    let rest = swap_loop fuel (i + 1) (j - 1) (swap xs i j) in if ltb i j then rest else xs

unfoldable pub reverse : List String → List String
reverse nodes = swap_loop (length nodes) 0 (length nodes - 1) nodes

-- The nodes in order, each at its first place: `seen` holds those that came before.
unfoldable pub unique_from : List String → List String → List String
unique_from seen [] = []
unique_from seen (n ∷ nodes) =
    let skip = unique_from seen nodes in
    let keep = n ∷ unique_from (n ∷ seen) nodes in if contains n seen then skip else keep

unfoldable pub nodes_to_rollback : List String → String → List String
nodes_to_rollback renewed failed = unique_from [] (failed ∷ reverse renewed)

-- The three steps that bring a node back.
unfoldable pub restore_node : Env → Manager → String → FilePath → ℤ → Exec (Unit {0})
restore_node env m node path timeout = do
  wrap ("restoring cert backup for node " <> node) (Backup.restore env m.backup_mgr path)
  wrap ("restarting pods during rollback for node " <> node)
      (PodRestart.restart_all env m.restart_mgr)
  wrap ("health check failed after rollback for node " <> node) (
      check_all_with_retry env (record { node = node; timeout = timeout; dry_run = m.dry_run })
        (pos 10) 15)

unfoldable pub failed_result : String → Error → RollbackResult
failed_result node e = record { node = node; success = false; error = some e; restored_at = none }

unfoldable pub restored_result : Env → String → Error ⊎ Unit {0} → Exec RollbackResult
restored_result env node (inl e) = pure (failed_result node e)
restored_result env node (inr _) = do
  t ← now env
  pure (record { node = node; success = true; error = none; restored_at = some t })

unfoldable pub rollback_to : Env → Manager → String → FilePath → ℤ → Exec RollbackResult
rollback_to env m node path timeout =
    if m.dry_run
    then restored_result env node (inr tt)
    else (do r ← attempt (restore_node env m node path timeout); restored_result env node r)

unfoldable pub no_backup : String → RollbackResult
no_backup node = failed_result node (
    message (
      "no cert backup path found for node " <> node
      <> " in state — cannot restore without a backup"))

unfoldable pub rollback_known : Env → Manager → String → Option NodeState → ℤ → Exec RollbackResult
rollback_known env m node none timeout = pure (no_backup node)
rollback_known env m node (some ns) timeout =
    if ns.backup_path == []
    then pure (no_backup node)
    else rollback_to env m node ns.backup_path timeout

-- `s` is a pointer: reading `s.Nodes` through nil panics.
unfoldable pub rollback_node : Env → Manager → String → Option State → ℤ → Exec RollbackResult
rollback_node env m node none timeout = crash "invalid memory address or nil pointer dereference"
rollback_node env m node (some s) timeout =
    rollback_known env m node (lookup node (entries s)) timeout

abbrev has_error : RollbackResult → Bool
has_error r = elim r.error [ none ↦ false | some _ ↦ true ]

-- The error of the state file is only logged.
unfoldable pub record_rollback :
    Env → Json → Manager → RollbackResult → Option State → Exec (Option State)
record_rollback env json m r none = crash "invalid memory address or nil pointer dereference"
record_rollback env json m r (some s) = do
  saved ← set_node_rollback env json r.node (has_error r) m.state_file s
  pure (some saved.0)

unfoldable pub rollback_each :
    Env
    → Json
    → Manager
    → List String
    → ℤ
    → Option State
    → Exec (List RollbackResult × Option State)
rollback_each env json m [] timeout s = pure ([], s)
rollback_each env json m (node ∷ nodes) timeout s = do
  result ← rollback_node env m node s timeout
  s' ← record_rollback env json m result s
  rest ← rollback_each env json m nodes timeout s'
  pure (result ∷ rest.0, rest.1)

-- The results, and the state that the pointer leads to afterwards.
unfoldable pub rollback_all :
    Env
    → Json
    → Manager
    → List String
    → String
    → Option State
    → ℤ
    → Exec (List RollbackResult × Option State)
rollback_all env json m renewed failed s timeout =
    rollback_each env json m (nodes_to_rollback renewed failed) timeout s

unfoldable pub is_critical : List RollbackResult → Bool
is_critical results = any (λ r. not r.success) results

abbrev error_text : Option Error → String
error_text none = "<nil>"
error_text (some e) = text e

abbrev time_text : Env → Option Time → String
time_text env none = "0001-01-01T00:00:00Z"
time_text env (some t) = env.format "2006-01-02T15:04:05Z07:00" t

unfoldable pub summary_line : Env → RollbackResult → String
summary_line env r =
    if r.success
    then "  ✓ "
      <> r.node
      <> " — rolled back successfully at "
      <> time_text env r.restored_at
      <> "\n"
    else "  ✗ " <> r.node <> " — ROLLBACK FAILED: " <> error_text r.error <> "\n"

unfoldable pub summary_lines : Env → List RollbackResult → String
summary_lines env [] = ""
summary_lines env (r ∷ rs) = summary_line env r <> summary_lines env rs

unfoldable pub summary : Env → List RollbackResult → String → String → String
summary env results failed_node failure_step =
    "Cert rotation failed on node "
    <> failed_node
    <> " at step: "
    <> failure_step
    <> "\n\nRollback results:\n"
    <> summary_lines env results
    <> (if is_critical results
        then "\nCRITICAL: One or more nodes failed to roll back.\n"
          <> "Manual intervention required immediately.\n"
          <> "Check cert backup paths in /var/lib/cert-rotator/state.json\n"
        else "\nAll nodes restored to previous certs successfully.\n"
          <> "Please investigate the failed node before the next renewal attempt.\n")
