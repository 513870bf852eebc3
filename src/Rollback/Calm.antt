-- ===== src/Rollback/Calm.antt =====
-- The steps of a rollback panic only at a store into a nil map: the manifest that a file decoded to,
-- or the nodes of the state.
use cert_rotator.Base.{
  ℕ, zero, suc, ◌+◌, String, List, [], ◌∷◌, Option, none, some, ◌⊎◌, inl, inr, ◌≡◌, refl, path_eq,
}
use cert_rotator.Base.Int.{ℤ}
use cert_rotator.Base.Dict.{Dict, lookup}
use cert_rotator.Api.{FilePath}
use cert_rotator.Host.{Env, Bytes, Error, not_exist, message, wrapped, Fields, Exec}
use cert_rotator.Host.Calm.{
  Calm, Calm-bind, Calm-ensured, Calm-wrap, Calm-crash, Ensures-lift, calm_rules,
}
use cert_rotator.Host.Ensures.{Ensures-wrap}
use cert_rotator.Backup
use cert_rotator.Backup.{copy_file, skip_missing, copy_optional, copy_pki, copy_kubeconfigs}
use cert_rotator.HealthCheck.{
  Checker, Component, control_plane_components, tcp_probe, expect_ok, http_probe, check, check_each,
  check_all, after_round, retry, check_all_with_retry,
}
use cert_rotator.PodRestart
use cert_rotator.PodRestart.{
  annotated, inject_restart_annotation, find_manifest, rewrite_manifest, restart, restart_each,
  restart_all,
}
use cert_rotator.State.{
  State, NodeState, Json, entries, store_node, set_node_rollback, save, write_state,
}
use cert_rotator.Rollback.{
  Manager, RollbackResult, restore_node, restored_result, rollback_to, rollback_known,
  rollback_node, record_rollback,
}

module _ {Cause : Type 0} (env : Env)
    (null : (bytes : Bytes) → env.yaml_unmarshal bytes ≡ inr none → Cause) where
  copy_file-Calm : (src dst : FilePath) → Calm Cause (copy_file env src dst)
  unfolding copy_file
  copy_file-Calm src dst = search calm_rules depth 8

  skip_missing-Calm : (s : String) (r : Error ⊎ Unit {0}) → Calm Cause (skip_missing s r)
  unfolding skip_missing
  skip_missing-Calm s (inl (not_exist t)) = search calm_rules
  skip_missing-Calm s (inl (message t)) = search calm_rules
  skip_missing-Calm s (inl (wrapped t e)) = search calm_rules
  skip_missing-Calm s (inr _) = search calm_rules

  copy_optional-Calm : (s : String) (src dst : FilePath) → Calm Cause (copy_optional env s src dst)
  unfolding copy_optional
  copy_optional-Calm s src dst = search (calm_rules, copy_file-Calm, skip_missing-Calm)

  copy_pki-Calm :
      (subdir s : String) (src dst : FilePath) (rels : List FilePath)
      → Calm Cause (copy_pki env subdir s src dst rels)
  unfolding copy_pki
  copy_pki-Calm subdir s src dst [] = search calm_rules
  copy_pki-Calm subdir s src dst (rel ∷ rels) =
      Calm-bind _ _ (search calm_rules)
        λ _. Calm-bind _ _ (copy_optional-Calm _ _ _) λ _. copy_pki-Calm subdir s src dst rels

  copy_kubeconfigs-Calm :
      (s : String) (src dst : FilePath) (files : List FilePath)
      → Calm Cause (copy_kubeconfigs env s src dst files)
  unfolding copy_kubeconfigs
  copy_kubeconfigs-Calm s src dst [] = search calm_rules
  copy_kubeconfigs-Calm s src dst (file ∷ files) =
      Calm-bind _ _ (copy_optional-Calm _ _ _) λ _. copy_kubeconfigs-Calm s src dst files

  restore-Calm : (m : Backup.Manager) (path : FilePath) → Calm Cause (Backup.restore env m path)
  unfolding Backup.restore
  restore-Calm m path = Calm-bind _ _ (copy_pki-Calm _ _ _ _ _) λ _. copy_kubeconfigs-Calm _ _ _ _

  annotated-Calm : (raw : Option Fields) → (raw ≡ none → Cause) → Calm Cause (annotated env raw)
  unfolding annotated
  annotated-Calm none nil = Calm-crash (nil refl)
  annotated-Calm (some manifest) nil = search calm_rules

  inject_restart_annotation-Calm :
      (bytes : Bytes) → Calm Cause (inject_restart_annotation env bytes)
  unfolding inject_restart_annotation
  inject_restart_annotation-Calm bytes =
      Calm-ensured _ _ (search calm_rules)
        (Ensures-wrap _ _ (Ensures-lift (env.yaml_unmarshal bytes)))
        λ raw from.
          Calm-bind _ _ (annotated-Calm raw (λ nil. null bytes (cc))) λ manifest. search calm_rules

  find_manifest-Calm :
      (m : PodRestart.Manager) (name : String) → Calm Cause (find_manifest env m name)
  unfolding find_manifest
  find_manifest-Calm m name = search calm_rules depth 8

  rewrite_manifest-Calm :
      (name : String) (path : FilePath) → Calm Cause (rewrite_manifest env name path)
  unfolding rewrite_manifest
  rewrite_manifest-Calm name path = search (calm_rules, inject_restart_annotation-Calm) depth 8

  restart-Calm : (m : PodRestart.Manager) (name : String) → Calm Cause (restart env m name)
  unfolding restart
  restart-Calm m name = search (calm_rules, find_manifest-Calm, rewrite_manifest-Calm)

  restart_each-Calm :
      (m : PodRestart.Manager) (names : List String) → Calm Cause (restart_each env m names)
  unfolding restart_each
  restart_each-Calm m [] = search calm_rules
  restart_each-Calm m (name ∷ names) =
      Calm-bind _ _ (search (calm_rules, restart-Calm))
        λ _. Calm-bind _ _ (search calm_rules) λ _. restart_each-Calm m names

  restart_all-Calm : (m : PodRestart.Manager) → Calm Cause (restart_all env m)
  unfolding restart_all
  restart_all-Calm m = restart_each-Calm m _

  tcp_probe-Calm : (addr : String) → Calm Cause (tcp_probe env addr)
  unfolding tcp_probe
  tcp_probe-Calm addr = search calm_rules

  expect_ok-Calm : (url : String) (status : ℕ) → Calm Cause (expect_ok url status)
  unfolding expect_ok
  expect_ok-Calm url status = search calm_rules

  http_probe-Calm : (url : String) → Calm Cause (http_probe env url)
  unfolding http_probe
  http_probe-Calm url = search (calm_rules, expect_ok-Calm)

  check-Calm : (c : Checker) (comp : Component) → Calm Cause (check env c comp)
  unfolding check
  check-Calm c comp = search (calm_rules, tcp_probe-Calm, http_probe-Calm)

  check_each-Calm : (c : Checker) (comps : List Component) → Calm Cause (check_each env c comps)
  unfolding check_each
  check_each-Calm c [] = search calm_rules
  check_each-Calm c (comp ∷ comps) =
      Calm-bind _ _ (Calm-wrap _ _ (check-Calm c comp)) λ _. check_each-Calm c comps

  check_all-Calm : (c : Checker) → Calm Cause (check_all env c)
  unfolding check_all
  check_all-Calm c = check_each-Calm c control_plane_components

  after_round-Calm :
      (c : Checker) (max interval n : ℕ) (again : Exec (Unit {0})) (r : Error ⊎ Unit {0})
      → Calm Cause again
      → Calm Cause (after_round c max interval n again r)
  unfolding after_round
  after_round-Calm c max interval n again (inl e) k = search calm_rules
  after_round-Calm c max interval n again (inr _) k = search calm_rules

  retry-Calm :
      (c : Checker) (max interval rounds n : ℕ) → Calm Cause (retry env c max interval rounds n)
  unfolding retry
  retry-Calm c max interval zero n = search calm_rules
  retry-Calm c max interval (suc rounds) n =
      Calm-bind _ _ (search (calm_rules, check_all-Calm))
        λ r. after_round-Calm c max interval n _ r (retry-Calm c max interval rounds (n + 1))

  check_all_with_retry-Calm :
      (c : Checker) (attempts : ℤ) (interval : ℕ)
      → Calm Cause (check_all_with_retry env c attempts interval)
  unfolding check_all_with_retry
  check_all_with_retry-Calm c attempts interval = search (calm_rules, retry-Calm)

  restore_node-Calm :
      (m : Manager) (node : String) (path : FilePath) (timeout : ℤ)
      → Calm Cause (restore_node env m node path timeout)
  unfolding restore_node
  restore_node-Calm m node path timeout =
      search (calm_rules, restore-Calm, restart_all-Calm, check_all_with_retry-Calm)

  restored_result-Calm :
      (node : String) (r : Error ⊎ Unit {0}) → Calm Cause (restored_result env node r)
  unfolding restored_result
  restored_result-Calm node (inl e) = search calm_rules
  restored_result-Calm node (inr _) = search calm_rules

  rollback_known-Calm :
      (m : Manager) (node : String) (ns : Option NodeState) (timeout : ℤ)
      → Calm Cause (rollback_known env m node ns timeout)
  unfolding rollback_known rollback_to
  rollback_known-Calm m node none timeout = search calm_rules
  rollback_known-Calm m node (some ns) timeout =
      search (calm_rules, restore_node-Calm, restored_result-Calm) depth 8

  pub rollback_node-Calm :
      (m : Manager) (node : String) (s : State) (timeout : ℤ)
      → Calm Cause (rollback_node env m node (some s) timeout)
  unfolding rollback_node
  rollback_node-Calm m node s timeout = rollback_known-Calm m node (lookup node (entries s)) timeout

module _ {Cause : Type 0} (env : Env) where
  store_node-Calm :
      (node : String) (ns : NodeState) (s : State) (there : Option (Dict NodeState))
      → (there ≡ none → Cause)
      → Calm Cause (store_node node ns s there)
  unfolding store_node
  store_node-Calm node ns s none nil = Calm-crash (nil refl)
  store_node-Calm node ns s (some nodes) nil = search calm_rules

  pub record_rollback-Calm :
      (json : Json) (m : Manager) (r : RollbackResult) (s : State)
      → (s.nodes ≡ none → Cause)
      → Calm Cause (record_rollback env json m r (some s))
  unfolding record_rollback set_node_rollback save write_state
  record_rollback-Calm json m r s nil =
      Calm-bind _ _
        (Calm-bind _ _ (search calm_rules)
          λ t. Calm-bind _ _ (store_node-Calm _ _ s s.nodes nil) λ s'. search calm_rules depth 12)
        λ saved. search calm_rules
