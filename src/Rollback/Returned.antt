-- ===== src/Rollback/Returned.antt =====
-- A rollback goes on to the last node.
use cert_rotator.Base.{
  String, List, [], ◌∷◌, Bool, true, false, Option, none, some, ◌⊎◌, inl, inr, ◌≡◌, refl, ap,
}
use cert_rotator.Base.Int.{ℤ}
use cert_rotator.Base.Dict.{Dict}
use cert_rotator.Api.{FilePath}
use cert_rotator.Host.{Env, Bytes, World, Result, ok, err, panic, attempt, now}
use cert_rotator.Host.Calm.{Calm, NoPanic, nil_map, Calm-bind, Calm-ensured, Calm-pure}
use cert_rotator.Host.Ensures.{
  OnOk, Ensures, Ensures-bind, Ensures-pure, Ensures-any, Ensures-crash,
}
use cert_rotator.Host.Total.{NoError}
use cert_rotator.State.{State, NodeState, Json, store_node, mark_critical, set_node_rollback, save}
use cert_rotator.Rollback.{
  Manager, RollbackResult, has_error, record_rollback, rollback_each, rollback_all,
  nodes_to_rollback,
}
use cert_rotator.Rollback.Calm.{rollback_node-Calm, record_rollback-Calm}
use cert_rotator.Rollback.Outcome.{Reports, rollback_each-Reports, rollback_each-Total}

-- The state has a map of nodes.
abbrev HasNodes : State → Type 0
HasNodes s = (nodes : Dict NodeState) × (s.nodes ≡ some nodes)

store_node-HasNodes :
    (node : String) (ns : NodeState) (s : State) (there : Option (Dict NodeState))
    → Ensures HasNodes (store_node node ns s there)
unfolding store_node
store_node-HasNodes node ns s none = Ensures-crash _
store_node-HasNodes node ns s (some nodes) = Ensures-pure _ (_, refl)

mark_critical-HasNodes :
    (failed : Bool) (s : State) → HasNodes s → HasNodes (mark_critical failed s)
mark_critical-HasNodes true s has = has
mark_critical-HasNodes false s has = has

set_node_rollback-HasNodes :
    (env : Env) (json : Json) (node : String) (failed : Bool) (path : FilePath) (s : State)
    → Ensures (λ saved. HasNodes saved.0) (set_node_rollback env json node failed path s)
unfolding set_node_rollback save
set_node_rollback-HasNodes env json node failed path s =
    Ensures-bind (now env) _ (Ensures-any _) λ t _.
      Ensures-bind _ _ (store_node-HasNodes node _ s s.nodes) λ s' has.
        Ensures-bind (now env) _ (Ensures-any _) λ t' _.
          Ensures-bind (attempt _) _ (Ensures-any _)
            λ r _. Ensures-pure _ (mark_critical-HasNodes failed s' has)

-- Why a store of a rollback can be into a nil map: a YAML file decodes to none, or the state that the
-- rollback was given has none.
abbrev pub NilMap : Env → State → Type 0
NilMap env s = ((bytes : Bytes) × (env.yaml_unmarshal bytes ≡ inr none)) ⊎ (s.nodes ≡ none)

module _ (Cause : Type 0) where
  -- The pointer is not nil, and without its nodes there is a cause.
  abbrev Leads : Option State → Type 0
  Leads s = (v : State) × (s ≡ some v) × (v.nodes ≡ none → Cause)

  record_rollback-Leads :
      (env : Env) (json : Json) (m : Manager) (r : RollbackResult) (s : State)
      → Ensures Leads (record_rollback env json m r (some s))
  unfolding record_rollback
  record_rollback-Leads env json m r s =
      Ensures-bind _ _ (set_node_rollback-HasNodes env json r.node (has_error r) m.state_file s)
        λ saved has. Ensures-pure _ (saved.0, refl, (λ nil. absurd (cc)))

  rollback_each-Calm :
      (env : Env)
      → ((bytes : Bytes) → env.yaml_unmarshal bytes ≡ inr none → Cause)
      → (json : Json) (m : Manager) (nodes : List String) (timeout : ℤ) (s : Option State) → Leads s
      → Calm Cause (rollback_each env json m nodes timeout s)
  unfolding rollback_each
  rollback_each-Calm env null json m [] timeout s there = Calm-pure _
  rollback_each-Calm env null json m (node ∷ nodes) timeout none (v, there, nil) = absurd (cc)
  rollback_each-Calm env null json m (node ∷ nodes) timeout (some s) (v, there, nil) =
      Calm-bind _ _ (rollback_node-Calm env null m node s timeout) λ result.
        Calm-ensured _ _ (record_rollback-Calm env json m result s (λ e. nil (cc)))
          (record_rollback-Leads env json m result s)
          λ s' there'.
            Calm-bind _ _ (rollback_each-Calm env null json m nodes timeout s' there')
              λ rest. Calm-pure _

-- A call whose value is of a kind, or that panicked at a store into a nil map for a cause.
returned :
    {A : Type 0} (P : A → Type 0) (Cause : Type 0) (r : Result A) (w : World)
    → OnOk P r
    → NoError r
    → NoPanic Cause r
    → ((a : A) × (w' : World) × ◌≡◌ {A = Result A × World} (r, w) (ok a, w') × P a)
      ⊎ ((r ≡ panic nil_map) × Cause)
returned P Cause (ok a) w h total calm = inl (a, w, refl, h)
returned P Cause (err e) w h total calm = elim total [ ]
returned P Cause (panic s) w h total calm = inr (ap panic calm.1, calm.0)

-- Whatever fails at a node, a rollback that is given a state goes on: it returns one result for each
-- node to roll back, in order, with a state that is critical just if it was critical before or a node
-- failed; or it has panicked at a store into a nil map, which takes a state without a map of nodes,
-- or bytes that the YAML library decodes to a nil map. It never ends with an error.
pub rollback_all-returns :
    (env : Env) (json : Json) (m : Manager) (renewed : List String) (failed : String) (s : State)
    (timeout : ℤ) (w : World)
    → ((out : List RollbackResult × Option State) × (w' : World) × (rollback_all env json m renewed
            failed
            (some s)
            timeout
            w
          ≡ (ok out, w'))
        × Reports (nodes_to_rollback renewed failed) (some s) out)
      ⊎ (((rollback_all env json m renewed failed (some s) timeout w).0 ≡ panic nil_map)
          × NilMap env s)
unfolding rollback_all
rollback_all-returns env json m renewed failed s timeout w =
    let nodes = nodes_to_rollback renewed failed in
    let (r, w') = rollback_each env json m nodes timeout (some s) w in
    returned (Reports nodes (some s)) (NilMap env s) r w'
      ((rollback_each-Reports env json m nodes timeout (some s)).at w)
      ((rollback_each-Total env json m nodes timeout (some s)).at w)
      ((rollback_each-Calm (NilMap env s) env (λ bytes e. inl (bytes, e)) json m nodes timeout
          (some s) (s, refl, inr)).at
        w)
