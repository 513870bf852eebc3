-- ===== src/State/Reach.antt =====
-- The states that the operations on the state file lead to, and what holds of all of them.
use mathlib.Core.Path.{subst}
use cert_rotator.Base.{
  String, Bool, true, false, [], ◌∷◌, any, Option, none, some, ◌⊎◌, inl, inr, string_eq, ◌≡◌, refl,
  ap, sym, ◌∙◌, Bool-cases, Option-cases, arith,
}
use cert_rotator.Base.Dict.{Dict, lookup, insert}
use cert_rotator.Api.{FilePath}
use cert_rotator.Host.{Env, Error, World, ok, crash}
use cert_rotator.Host.Inversion.{>>=-eq-ok}
use cert_rotator.Host.Written.{pure-ok}
use cert_rotator.State.{
  Phase, NodeState, State, Json, new, set_phase, entries, node_state, store_node, with_node,
  set_node_backup, set_node_renewed, mark_critical, set_node_rollback, reset, save,
}
use cert_rotator.State.Reload.{save-ok}

-- One call of an operation, whether or not it could write the file.
pub data Step (s s' : State) : Type 0 where
  phase_set :
      (env : Env) (json : Json) (p : Phase) (path : FilePath) (r : Error ⊎ Unit {0}) (w w' : World)
      → set_phase env json p path s w ≡ (ok (s', r), w')
      → Step s s'
  backed_up :
      (env : Env) (json : Json) (node : String) (backup path : FilePath) (r : Error ⊎ Unit {0})
      (w w' : World)
      → set_node_backup env json node backup path s w ≡ (ok (s', r), w')
      → Step s s'
  renewed :
      (env : Env) (json : Json) (node : String) (path : FilePath) (r : Error ⊎ Unit {0})
      (w w' : World)
      → set_node_renewed env json node path s w ≡ (ok (s', r), w')
      → Step s s'
  restored :
      (env : Env) (json : Json) (node : String) (failed : Bool) (path : FilePath)
      (r : Error ⊎ Unit {0}) (w w' : World)
      → set_node_rollback env json node failed path s w ≡ (ok (s', r), w')
      → Step s s'
  was_reset :
      (env : Env) (json : Json) (path : FilePath) (r : Error ⊎ Unit {0}) (w w' : World)
      → reset env json path s w ≡ (ok (s', r), w')
      → Step s s'

pub data Reach : State → Type 0 where
  start : Reach new
  step : {s s' : State} → Reach s → Step s s' → Reach s'

-- A node's rollback failed.
abbrev pub some_failed : Dict NodeState → Bool
some_failed nodes = any (λ e. e.1.rollback_failed) nodes

abbrev pub Sound : State → Type 0
Sound s = some_failed (entries s) ≡ true → s.critical ≡ true

some_failed-lookup :
    (node : String) (nodes : Dict NodeState) (ns : NodeState)
    → lookup node nodes ≡ some ns
    → ns.rollback_failed ≡ true
    → some_failed nodes ≡ true
some_failed-lookup node [] ns there failed = cc
some_failed-lookup node ((k, v) ∷ nodes) ns there failed =
    ground (arith, some_failed-lookup node nodes ns, there, failed)

some_failed-insert :
    (node : String) (nodes : Dict NodeState) (ns : NodeState)
    → ns.rollback_failed ≡ false
    → some_failed (insert node ns nodes) ≡ true
    → some_failed nodes ≡ true
some_failed-insert node [] ns fine h = ground (arith, fine, h)
some_failed-insert node ((k, v) ∷ nodes) ns fine h =
    ground (arith, some_failed-insert node nodes ns, fine, h)

-- A store that returns had a map to store into.
pub with_node-ok :
    (node : String) (ns : NodeState) (s : State) (w : World) {s' : State} {w' : World}
    → with_node node ns s w ≡ (ok s', w')
    → (nodes : Dict NodeState) × (s.nodes ≡ some nodes)
      × (s' ≡ record s { nodes = some (insert node ns nodes) })
unfolding store_node crash
with_node-ok node ns s w done = stored s.nodes done
  where
    stored :
        (there : Option (Dict NodeState)) {s' : State} {w' : World}
        → store_node node ns s there w ≡ (ok s', w')
        → (nodes : Dict NodeState) × (there ≡ some nodes)
          × (s' ≡ record s { nodes = some (insert node ns nodes) })
    stored none done = absurd (cc)
    stored (some nodes) done = (nodes, refl, sym (pure-ok _ w done).0)

-- An entry that failed only if the node's old entry did gives no failure that was not there.
with_node-Sound :
    (node : String) (ns : NodeState) (s : State) (w : World) {s' : State} {w' : World}
    → (ns.rollback_failed ≡ true → s.critical ≡ true)
    → Sound s
    → with_node node ns s w ≡ (ok s', w')
    → Sound s'
with_node-Sound node ns s w h sound done =
    let (nodes, there, is_s') = with_node-ok node ns s w done in
    subst Sound (sym is_s') λ found. elim (Bool-cases ns.rollback_failed) [
      | inl failed ↦ h failed
      | inr fine ↦ sound (
          ap (λ o. some_failed (elim o [ none ↦ [] | some l ↦ l ])) there
          ∙ some_failed-insert node nodes ns fine found)
    ]

node_state-Sound :
    (node : String) (s : State)
    → Sound s
    → (node_state node s).rollback_failed ≡ true
    → s.critical ≡ true
unfolding node_state
node_state-Sound node s sound failed = elim (Option-cases (lookup node (entries s))) [
  | inl out ↦ absurd (ground (arith, out, failed))
  | inr (ns, there) ↦
      sound (some_failed-lookup node (entries s) ns there (ground (arith, there, failed)))
]

-- The entry of a rollback.
rolled_back-Sound :
    (node : String) (failed : Bool) (ns : NodeState) (s : State) (w : World) {s' : State}
    {w' : World}
    → ns.rollback_failed ≡ failed
    → Sound s
    → with_node node ns s w ≡ (ok s', w')
    → Sound (mark_critical failed s')
rolled_back-Sound node true ns s w same sound done = λ _. refl
rolled_back-Sound node false ns s w same sound done =
    with_node-Sound node ns s w (λ e. absurd (cc)) sound done

save-Sound :
    (env : Env) (json : Json) (path : FilePath) (s s' : State) (r : Error ⊎ Unit {0}) (w w' : World)
    → Sound s
    → save env json path s w ≡ (ok (s', r), w')
    → Sound s'
save-Sound env json path s s' r w w' sound saved found =
    let same = (save-ok env json path s s' r w w' saved).0 in rw same (sound (rw same at found))

Step-Sound : (s s' : State) → Step s s' → Sound s → Sound s'
unfolding set_phase set_node_backup set_node_renewed set_node_rollback reset
Step-Sound s s' (phase_set env json p path r w w' e) sound =
    save-Sound env json path _ s' r w w' sound e
Step-Sound s s' (backed_up env json node backup path r w w' e) sound =
    let (s1, w1, e1, e2) = >>=-eq-ok _ _ w e in
    save-Sound env json path s1 s' r w1 w'
      (with_node-Sound node _ s w (node_state-Sound node s sound) sound e1) e2
Step-Sound s s' (renewed env json node path r w w' e) sound =
    let (t, w1, e1, d1) = >>=-eq-ok _ _ w e in
    let (s1, w2, e2, d2) = >>=-eq-ok _ _ w1 d1 in
    save-Sound env json path s1 s' r w2 w'
      (with_node-Sound node _ s w1 (node_state-Sound node s sound) sound e2) d2
Step-Sound s s' (restored env json node failed path r w w' e) sound =
    let (t, w1, e1, d1) = >>=-eq-ok _ _ w e in
    let (s1, w2, e2, d2) = >>=-eq-ok _ _ w1 d1 in
    save-Sound env json path _ s' r w2 w'
      (rolled_back-Sound node failed
        (record (node_state node s) { rolled_back_at = some t; rollback_failed = failed }) s w1 refl
        sound e2)
      d2
Step-Sound s s' (was_reset env json path r w w' e) sound =
    save-Sound env json path _ s' r w w' (λ found. absurd (cc)) e

-- In each state that the operations lead to from a new one, whether or not they could write the
-- file, the state is critical if the entry of some node records a failed rollback.
pub Reach-Sound : (s : State) → Reach s → some_failed (entries s) ≡ true → s.critical ≡ true
unfolding new
Reach-Sound s start = λ found. absurd (cc)
Reach-Sound s' (step {s} before one) = Step-Sound s s' one (Reach-Sound s before)
