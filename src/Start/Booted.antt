-- ===== src/Start/Booted.antt =====
-- When the daemon runs.
use cert_rotator.Base.{
  ℕ, String, Bool, true, false, List, [], ◌∷◌, Option, none, some, ◌⊎◌, inl, inr, ◌==◌, string_eq,
  ◌≡◌, ◌≢◌, arith, Bool-cases, Option-cases, any,
}
use cert_rotator.Host.{Error}
use cert_rotator.Config.{Vars}
use cert_rotator.Start.{
  Flags, Framework, Step, managing, controlling, healthz, readyz, started, node_name_from_env,
  setup_with_manager, after, run_manager, run_node, main, Run,
}

-- The manager runs.
abbrev pub is_started : Step → Bool
is_started (managing f) = false
is_started (controlling node) = false
is_started healthz = false
is_started readyz = false
is_started (started node) = true

abbrev pub steps_of : Flags → String → List Step
steps_of flags node = managing flags ∷ controlling node ∷ healthz ∷ readyz ∷ started node ∷ []

abbrev pub exit_code : Option Error → ℕ
exit_code none = 0
exit_code (some e) = 1

-- No call of the framework before the start of the manager fails.
pub record IsReady (fw : Framework) (flags : Flags) : Type 0 where
  pub configured : fw.get_config ≡ none
  pub managed : fw.new_manager flags ≡ none
  pub registered : fw.complete ≡ none
  pub healthy : fw.add_healthz_check ≡ none
  pub readied : fw.add_readyz_check ≡ none

-- It runs for the node, or it ends before.
data Boots (fw : Framework) (flags : Flags) (node : String) (r : Run) : Type 0 where
  runs : IsReady fw flags → r ≡ (exit_code fw.start, steps_of flags node) → Boots fw flags node r
  ends : any is_started r.1 ≡ false → r.0 ≡ 1 → Boots fw flags node r

run_node-Boots :
    (fw : Framework) (flags : Flags) (node : String)
    → (node == "") ≡ false
    → Boots fw flags node (run_node fw flags node)
unfolding setup_with_manager after run_manager run_node
run_node-Boots fw flags node named = elim (Option-cases fw.get_config) [
  | inr (e, failed) ↦ ends (ground (arith, failed)) (ground (arith, failed))
  | inl a ↦ elim (Option-cases (fw.new_manager flags)) [
    | inr (e, failed) ↦ ends (ground (arith, a, failed)) (ground (arith, a, failed))
    | inl b ↦ elim (Option-cases fw.complete) [
      | inr (e, failed) ↦
          ends (ground (arith, named, a, b, failed)) (ground (arith, named, a, b, failed))
      | inl c ↦ elim (Option-cases fw.add_healthz_check) [
        | inr (e, failed) ↦
            ends (ground (arith, named, a, b, c, failed)) (ground (arith, named, a, b, c, failed))
        | inl d ↦ elim (Option-cases fw.add_readyz_check) [
          | inr (e, failed) ↦
              ends (ground (arith, named, a, b, c, d, failed))
                (ground (arith, named, a, b, c, d, failed))
          | inl e ↦
              runs
                (record { configured = a; managed = b; registered = c; healthy = d; readied = e })
                (ground (arith, named, a, b, c, d, e))
        ]
      ]
    ]
  ]
]

-- The daemon either registers the reconciler for the node that MY_NODE_NAME names, which is not
-- empty, registers both checks and runs the manager, in this order and if no call of the framework
-- before fails, and exits with 0 just if the manager ends without an error; or it exits with 1 and
-- never runs the manager.
pub main_lem :
    (fw : Framework) (flags : Flags) (vars : Vars)
    → ((vars "MY_NODE_NAME" ≢ "")
        × IsReady fw flags
        × (main fw flags vars ≡ (exit_code fw.start, steps_of flags (vars "MY_NODE_NAME"))))
      ⊎ ((any is_started (main fw flags vars).1 ≡ false) × ((main fw flags vars).0 ≡ 1))
unfolding main node_name_from_env
main_lem fw flags vars = elim (Bool-cases (vars "MY_NODE_NAME" == "")) [
  | inl unnamed ↦ inr (ground (arith, unnamed), ground (arith, unnamed))
  | inr named ↦
      let node = vars "MY_NODE_NAME" in
      elim (run_node-Boots fw flags node named) [
        | runs all_well is ↦ inl (ground (arith, named), all_well, ground (arith, named, is))
        | ends quiet failed ↦ inr (ground (arith, named, quiet), ground (arith, named, failed))
      ]
]
