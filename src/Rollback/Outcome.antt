-- ===== src/Rollback/Outcome.antt =====
-- What a rollback reports, and what it leaves in the state.
use cert_rotator.Base.{
  String, List, [], ◌∷◌, map, Bool, true, false, not, ◌||◌, Option, none, some, ◌⊎◌, inl, inr, ◌≡◌,
  refl, arith, ◌==◌, path_eq,
}
use cert_rotator.Base.Int.{ℤ}
use cert_rotator.Base.Dict.{Dict, lookup}
use cert_rotator.Api.{FilePath}
use cert_rotator.Host.{Env, World, Error, ok, attempt, now}
use cert_rotator.Host.Ensures.{
  Ensures, Ensures-pure, Ensures-crash, Ensures-bind, Ensures-any, Ensures-if, Ensures-ok,
}
use cert_rotator.Host.Total.{Total, total_rules, Total-bind, Total-pure}
use cert_rotator.State.{
  State, NodeState, Json, entries, store_node, mark_critical, set_node_rollback, save,
}
use cert_rotator.Rollback.{
  Manager, RollbackResult, failed_result, restored_result, no_backup, rollback_to, rollback_known,
  rollback_node, restore_node, has_error, record_rollback, rollback_each, rollback_all,
  nodes_to_rollback, is_critical,
}

-- A result is about its node, and carries an error exactly when it is no success.
abbrev About : String → RollbackResult → Type 0
About node r = (r.node ≡ node) × (has_error r ≡ not r.success)

restored_result-About :
    (env : Env) (node : String) (r : Error ⊎ Unit {0})
    → Ensures (About node) (restored_result env node r)
unfolding restored_result failed_result
restored_result-About env node (inl e) = Ensures-pure _ (refl, refl)
restored_result-About env node (inr _) =
    Ensures-bind (now env) _ (Ensures-any (now env)) (λ t _. Ensures-pure _ (refl, refl))

rollback_to-About :
    (env : Env) (m : Manager) (node : String) (path : FilePath) (timeout : ℤ)
    → Ensures (About node) (rollback_to env m node path timeout)
unfolding rollback_to
rollback_to-About env m node path timeout =
    Ensures-if m.dry_run _ _ (λ _. restored_result-About env node (inr tt))
      λ _.
        Ensures-bind _ _ (Ensures-any (attempt (restore_node env m node path timeout)))
          (λ r _. restored_result-About env node r)

rollback_known-About :
    (env : Env) (m : Manager) (node : String) (ns : Option NodeState) (timeout : ℤ)
    → Ensures (About node) (rollback_known env m node ns timeout)
unfolding rollback_known no_backup failed_result
rollback_known-About env m node none timeout = Ensures-pure _ (refl, refl)
rollback_known-About env m node (some ns) timeout =
    Ensures-if (ns.backup_path == []) _ _ (λ _. Ensures-pure _ (refl, refl))
      λ _. rollback_to-About env m node ns.backup_path timeout

rollback_node-About :
    (env : Env) (m : Manager) (node : String) (s : Option State) (timeout : ℤ)
    → Ensures (About node) (rollback_node env m node s timeout)
unfolding rollback_node
rollback_node-About env m node none timeout = Ensures-crash _
rollback_node-About env m node (some s) timeout =
    rollback_known-About env m node (lookup node (entries s)) timeout

-- The flag of the state behind a pointer.
abbrev pub critical_of : Option State → Bool
critical_of none = false
critical_of (some s) = s.critical

store_node-critical :
    (node : String) (ns : NodeState) (s : State) (there : Option (Dict NodeState))
    → Ensures (λ s'. s'.critical ≡ s.critical) (store_node node ns s there)
unfolding store_node
store_node-critical node ns s none = Ensures-crash _
store_node-critical node ns s (some nodes) = Ensures-pure _ refl

mark_critical-critical :
    (failed : Bool) (s s' : State)
    → s'.critical ≡ s.critical
    → (mark_critical failed s').critical ≡ (failed || s.critical)
mark_critical-critical true s s' same = refl
mark_critical-critical false s s' same = same

set_node_rollback-critical :
    (env : Env) (json : Json) (node : String) (failed : Bool) (path : FilePath) (s : State)
    → Ensures
        (λ saved. saved.0.critical ≡ (failed || s.critical))
        (set_node_rollback env json node failed path s)
unfolding set_node_rollback save
set_node_rollback-critical env json node failed path s =
    Ensures-bind (now env) _ (Ensures-any _) λ t _.
      Ensures-bind _ _ (store_node-critical node _ s s.nodes) λ s' same.
        Ensures-bind (now env) _ (Ensures-any _) λ t' _.
          Ensures-bind (attempt _) _ (Ensures-any _)
            λ r _. Ensures-pure _ (mark_critical-critical failed s s' same)

record_rollback-critical :
    (env : Env) (json : Json) (m : Manager) (r : RollbackResult) (s : Option State)
    → Ensures
        (λ s'. critical_of s' ≡ (has_error r || critical_of s))
        (record_rollback env json m r s)
unfolding record_rollback
record_rollback-critical env json m r none = Ensures-crash _
record_rollback-critical env json m r (some s) =
    Ensures-bind _ _ (set_node_rollback-critical env json r.node (has_error r) m.state_file s)
      (λ saved h. Ensures-pure _ h)

-- One result for each node, in order, and the state is critical if it was or if one failed.
abbrev pub Reports : List String → Option State → List RollbackResult × Option State → Type 0
Reports nodes s (results, s') =
    (map (λ r. r.node) results ≡ nodes) × (critical_of s' ≡ (is_critical results || critical_of s))

pub rollback_each-Reports :
    (env : Env) (json : Json) (m : Manager) (nodes : List String) (timeout : ℤ) (s : Option State)
    → Ensures (Reports nodes s) (rollback_each env json m nodes timeout s)
unfolding rollback_each is_critical
rollback_each-Reports env json m [] timeout s = Ensures-pure _ (refl, refl)
rollback_each-Reports env json m (node ∷ nodes) timeout s =
    Ensures-bind _ _ (rollback_node-About env m node s timeout) λ result about.
      Ensures-bind _ _ (record_rollback-critical env json m result s) λ s' flag.
        Ensures-bind _ _ (rollback_each-Reports env json m nodes timeout s')
          λ rest reports. Ensures-pure _ (ground arith, ground arith)

pub rollback_all-Reports :
    (env : Env) (json : Json) (m : Manager) (renewed : List String) (failed : String) (s : State)
    (timeout : ℤ) (w : World) {results : List RollbackResult} {s' : Option State} {w' : World}
    → rollback_all env json m renewed failed (some s) timeout w ≡ (ok (results, s'), w')
    → (map (λ r. r.node) results ≡ nodes_to_rollback renewed failed)
      × (critical_of s' ≡ (is_critical results || s.critical))
unfolding rollback_all
rollback_all-Reports env json m renewed failed s timeout w e =
    Ensures-ok _ _ w
      (rollback_each-Reports env json m (nodes_to_rollback renewed failed) timeout (some s)) e

store_node-Total :
    (node : String) (ns : NodeState) (s : State) (there : Option (Dict NodeState))
    → Total (store_node node ns s there)
unfolding store_node
store_node-Total node ns s none = search total_rules
store_node-Total node ns s (some nodes) = search total_rules

set_node_rollback-Total :
    (env : Env) (json : Json) (node : String) (failed : Bool) (path : FilePath) (s : State)
    → Total (set_node_rollback env json node failed path s)
unfolding set_node_rollback save
set_node_rollback-Total env json node failed path s = search (total_rules, store_node-Total) depth 8

restored_result-Total :
    (env : Env) (node : String) (r : Error ⊎ Unit {0}) → Total (restored_result env node r)
unfolding restored_result
restored_result-Total env node (inl e) = search total_rules
restored_result-Total env node (inr _) = search total_rules

rollback_known-Total :
    (env : Env) (m : Manager) (node : String) (ns : Option NodeState) (timeout : ℤ)
    → Total (rollback_known env m node ns timeout)
unfolding rollback_known rollback_to
rollback_known-Total env m node none timeout = search total_rules
rollback_known-Total env m node (some ns) timeout =
    search (total_rules, restored_result-Total) depth 8

rollback_node-Total :
    (env : Env) (m : Manager) (node : String) (s : Option State) (timeout : ℤ)
    → Total (rollback_node env m node s timeout)
unfolding rollback_node
rollback_node-Total env m node none timeout = search total_rules
rollback_node-Total env m node (some s) timeout =
    rollback_known-Total env m node (lookup node (entries s)) timeout

record_rollback-Total :
    (env : Env) (json : Json) (m : Manager) (r : RollbackResult) (s : Option State)
    → Total (record_rollback env json m r s)
unfolding record_rollback
record_rollback-Total env json m r none = search total_rules
record_rollback-Total env json m r (some s) = search (total_rules, set_node_rollback-Total)

pub rollback_each-Total :
    (env : Env) (json : Json) (m : Manager) (nodes : List String) (timeout : ℤ) (s : Option State)
    → Total (rollback_each env json m nodes timeout s)
unfolding rollback_each
rollback_each-Total env json m [] timeout s = search total_rules
rollback_each-Total env json m (node ∷ nodes) timeout s =
    Total-bind _ _ (rollback_node-Total env m node s timeout) λ result.
      Total-bind _ _ (record_rollback-Total env json m result s)
        λ s'. Total-bind _ _ (rollback_each-Total env json m nodes timeout s') λ rest. Total-pure _
