-- ===== src/State.antt =====
-- The state file of a rotation (state/state.go). A method that mutates `*State` returns the new
-- state beside the error of its `Save`, which leaves the mutation in place.
pub mod Reload
pub mod Reach
use cert_rotator.Base.{
  String, Bool, true, false, not, [], Option, none, some, ◌⊎◌, inl, inr, Eq, ◌==◌, if◌then◌else◌,
}
use cert_rotator.Base.Dict.{Dict, lookup, insert}
use cert_rotator.Api.{Time, FilePath}
use cert_rotator.Host.{
  Env, Bytes, Error, not_exist, Exec, pure, fail, crash, attempt, lift, now, dir, read_file,
  mkdir_all, write_file, ◌>>=◌, ◌>>◌,
}

pub data Phase : Type 0 where
  idle detecting renewing_n1 renewing_n2 renewing_n3 : Phase
  rollback_n3 rollback_n2 rollback_n1 notifying : Phase

Phase-discrete : Discrete Phase
Phase-discrete = hlevel

instance unfoldable pub phase_eq : Eq Phase
unfolding Phase-discrete
phase_eq = record { dec = Phase-discrete }

unfoldable pub phase_explanation : Phase → String
phase_explanation idle = "No operation in progress. Waiting for next check interval."
phase_explanation detecting = "Checking certificate expiry on all control plane nodes."
phase_explanation renewing_n1 = "Renewing certificates on node 1."
phase_explanation renewing_n2 = "Renewing certificates on node 2."
phase_explanation renewing_n3 = "Renewing certificates on node 3."
phase_explanation rollback_n1 = "Rolling back node 1 to previous cert state."
phase_explanation rollback_n2 = "Rolling back node 2 to previous cert state."
phase_explanation rollback_n3 = "Rolling back node 3 to previous cert state."
phase_explanation notifying = "Sending notifications for completed operation."

-- The zero time is `none`, and so is a nil map, which a file with `"nodes": null` leads to.
pub record NodeState : Type 0 where
  pub node : String
  pub backup_path : FilePath
  pub renewed_at : Option Time
  pub rolled_back_at : Option Time
  pub renewal_failed : Bool
  pub rollback_failed : Bool

pub record State : Type 0 where
  pub phase : Phase
  pub started_at : Option Time
  pub updated_at : Option Time
  pub nodes : Option (Dict NodeState)
  pub failed_node : String
  pub failure_step : String
  pub critical : Bool

-- `json.MarshalIndent` and `json.Unmarshal` at this type.
pub record Json : Type 0 where
  pub marshal : State → Error ⊎ Bytes
  pub unmarshal : Bytes → Error ⊎ State

unfoldable pub new : State
new = record {
  phase = idle;
  started_at = none;
  updated_at = none;
  nodes = some [];
  failed_node = "";
  failure_step = "";
  critical = false;
}

unfoldable pub load_read : Json → Error ⊎ Bytes → Exec State
load_read json (inl (not_exist s)) = pure new
load_read json (inl e) = fail e
load_read json (inr bytes) = lift (json.unmarshal bytes)

unfoldable pub load : Env → Json → FilePath → Exec State
load env json path = do r ← attempt (read_file env path); load_read json r

unfoldable pub write_state : Env → Json → FilePath → State → Exec (Unit {0})
write_state env json path s = do
  bytes ← lift (json.marshal s)
  mkdir_all env (dir path)
  write_file env path bytes 0o600

unfoldable pub save : Env → Json → FilePath → State → Exec (State × (Error ⊎ Unit {0}))
save env json path s = do
  t ← now env
  let s' = record s { updated_at = some t }
  r ← attempt (write_state env json path s')
  pure (s', r)

unfoldable pub set_phase : Env → Json → Phase → FilePath → State → Exec (State × (Error ⊎ Unit {0}))
set_phase env json phase path s = save env json path (record s { phase = phase })

abbrev empty_node : NodeState
empty_node = record {
  node = "";
  backup_path = [];
  renewed_at = none;
  rolled_back_at = none;
  renewal_failed = false;
  rollback_failed = false;
}

-- Reading a nil map finds nothing.
abbrev pub entries : State → Dict NodeState
entries s = elim s.nodes [ none ↦ [] | some nodes ↦ nodes ]

-- `s.Nodes[node]`
unfoldable pub node_state : String → State → NodeState
node_state node s = elim (lookup node (entries s)) [ none ↦ empty_node | some ns ↦ ns ]

-- `s.Nodes[node] = ns`
unfoldable pub store_node : String → NodeState → State → Option (Dict NodeState) → Exec State
store_node node ns s none = crash "assignment to entry in nil map"
store_node node ns s (some nodes) = pure (record s { nodes = some (insert node ns nodes) })

abbrev pub with_node : String → NodeState → State → Exec State
with_node node ns s = store_node node ns s s.nodes

unfoldable pub set_node_backup :
    Env → Json → String → FilePath → FilePath → State → Exec (State × (Error ⊎ Unit {0}))
set_node_backup env json node backup_path path s = do
  s' ← with_node node (record (node_state node s) { node = node; backup_path = backup_path }) s
  save env json path s'

unfoldable pub set_node_renewed :
    Env → Json → String → FilePath → State → Exec (State × (Error ⊎ Unit {0}))
set_node_renewed env json node path s = do
  t ← now env
  s' ← with_node node (record (node_state node s) { renewed_at = some t }) s
  save env json path s'

-- A failed rollback makes the state critical, and nothing but `reset` clears that.
abbrev pub mark_critical : Bool → State → State
mark_critical failed s = if failed then record s { critical = true } else s

unfoldable pub set_node_rollback :
    Env → Json → String → Bool → FilePath → State → Exec (State × (Error ⊎ Unit {0}))
set_node_rollback env json node failed path s = do
  t ← now env
  s' ←
      with_node node
        (record (node_state node s) { rolled_back_at = some t; rollback_failed = failed }) s
  save env json path (mark_critical failed s')

unfoldable pub is_in_progress : State → Bool
is_in_progress s = not (s.phase == idle)

unfoldable pub reset : Env → Json → FilePath → State → Exec (State × (Error ⊎ Unit {0}))
reset env json path s = save env json path (record s {
  phase = idle;
  nodes = some [];
  failed_node = "";
  failure_step = "";
  critical = false;
  started_at = none;
})
