-- ===== src/Controller/Holds.antt =====
-- What holds of the status, what sets it and what keeps it.
use mathlib.Core.Path.{subst}
use cert_rotator.Base.{ℕ, ◌+◌, String, List, ◌∷◌, inr, ◌≡◌, refl, sym, arith}
use cert_rotator.Base.Int.{ℤ}
use cert_rotator.Api.{Time, CertRotationConfigSpec, CertRotationConfigStatus, NodeStatus}
use cert_rotator.Host.{
  Env, World, patched, ok, pure, gets, now, attempt, log_error, modify_status, patch_status,
  range_map, emit, next_call, ◌>>=◌, ◌>>◌,
}
use cert_rotator.Host.Keeps.{Keeps, keeps_rules}
use cert_rotator.Host.Leaves.{Leaves}
use cert_rotator.Controller.Status.{patched_by}
use cert_rotator.Controller.Conditions.{Flags, with_conditions, update_cluster_conditions}
use cert_rotator.Controller.Notify.{send_renewal_success, send_critical_alert}
use cert_rotator.Controller.Notify.Silent.{renewal_success-Keeps, critical_alert-Keeps}

pub record StatusHas (P : CertRotationConfigStatus → Type 0) (w : World) : Type 0 where
  pub same : P w.status

-- The API server accepts every status patch and answers with the status that it was sent.
abbrev pub Accepts : Env → Type 0
Accepts env =
    (n : ℕ) (before after : CertRotationConfigStatus) → env.patch n before after ≡ inr after

module _ (env : Env) (accepts : Accepts env) where
  pub patched_by-done :
      (f : CertRotationConfigStatus → CertRotationConfigStatus) (w : World)
      → (w' : World) × (patched_by env f w ≡ (ok tt, w')) × (w'.status ≡ f w.status)
  unfolding patched_by patch_status modify_status gets emit next_call ◌>>=◌
  patched_by-done f w = (
    record w { calls = w.calls + 1; status = f w.status; trace = patched (f w.status) ∷ w.trace },
    ground (arith, accepts w.calls w.status (f w.status)),
    refl,
  )

  module _ {P : CertRotationConfigStatus → Type 0} where
    next_call-StatusHas : Keeps (StatusHas P) next_call
    unfolding next_call
    next_call-StatusHas = record { at = λ w h. record { same = h.same } }

    now-StatusHas : Keeps (StatusHas P) (now env)
    unfolding now
    now-StatusHas = search (keeps_rules, next_call-StatusHas)

    range_map-StatusHas :
        (nodes : List (String × NodeStatus)) → Keeps (StatusHas P) (range_map env nodes)
    unfolding range_map
    range_map-StatusHas nodes = search (keeps_rules, next_call-StatusHas)

    patch_status-StatusHas :
        (before : CertRotationConfigStatus) → Keeps (StatusHas P) (patch_status env before)
    unfolding patch_status modify_status emit next_call ◌>>=◌
    patch_status-StatusHas before = record {
      at = λ w h. rw (accepts w.calls before w.status) (record { same = h.same });
    }

    module _
        (stable : (fl : Flags) (t : Time) (s : CertRotationConfigStatus)
          → P s
          → P (with_conditions env fl t s)) where
      conditions-StatusHas :
          (fl : Flags) (t : Time) → Keeps (StatusHas P) (modify_status (with_conditions env fl t))
      unfolding modify_status
      conditions-StatusHas fl t = record {
        at = λ w h. record { same = stable fl t w.status h.same };
      }

      update_cluster_conditions-StatusHas : Keeps (StatusHas P) (update_cluster_conditions env)
      unfolding update_cluster_conditions
      update_cluster_conditions-StatusHas =
          search
            (
              keeps_rules, now-StatusHas, range_map-StatusHas, conditions-StatusHas,
              patch_status-StatusHas,
            )
            depth 8

      -- What follows the last patch of the node's entry in each of the ways that a pass ends.
      pub rest-StatusHas :
          (d : ℤ) → Keeps (StatusHas P) (do log_error (update_cluster_conditions env); pure d)
      rest-StatusHas d = search (keeps_rules, update_cluster_conditions-StatusHas)

      module _ (node : String) (spec : CertRotationConfigSpec) (d : ℤ) where
        pub success-StatusHas : Keeps (StatusHas P) (do
          send_renewal_success env node spec
          log_error (update_cluster_conditions env)
          pure d)
        success-StatusHas =
            search
              (keeps_rules, renewal_success-Keeps next_call-StatusHas env node spec, rest-StatusHas)

        pub alert-StatusHas :
            (message : String)
            → Keeps (StatusHas P) (do
              send_critical_alert env node spec message
              log_error (update_cluster_conditions env)
              pure d)
        alert-StatusHas message =
            search
              (keeps_rules, critical_alert-Keeps next_call-StatusHas env node spec, rest-StatusHas)

    module _ (f : CertRotationConfigStatus → CertRotationConfigStatus)
        (sets : (s : CertRotationConfigStatus) → P (f s)) where
      pub patched_by-StatusHas : Leaves (λ _. StatusHas P) (patched_by env f)
      patched_by-StatusHas = record {
        at = λ w.
            let (w', is_done, is_set) = patched_by-done f w in
            rw is_done (record { same = subst P (sym is_set) (sets w.status) });
      }

      pub logged_patch-StatusHas : Leaves (λ _. StatusHas P) (log_error (patched_by env f))
      unfolding log_error attempt pure ◌>>=◌
      logged_patch-StatusHas = record {
        at = λ w.
            let (w', is_done, is_set) = patched_by-done f w in
            rw is_done (record { same = subst P (sym is_set) (sets w.status) });
      }
