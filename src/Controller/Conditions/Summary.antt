-- ===== src/Controller/Conditions/Summary.antt =====
-- What the loop over the nodes computes, whatever the order of its visits.
use mathlib.Core.Logic.{∥∥₁_elim}
use mathlib.Core.List.{Perm, Permᴰ}
use mathlib.Core.List.Permᴰ.{nil, cons, swap, trans}
use cert_rotator.Base.{
  String, Bool, true, false, ◌&&◌, ◌||◌, List, [], ◌∷◌, any, all, ◌==◌, string_eq, if◌then◌else◌,
  ◌≡◌, refl, ap, ◌∙◌, arith,
}
use cert_rotator.Api.{CertStatus, ClusterPhase, NodePhase, NodeStatus}
use cert_rotator.Controller.Conditions.{
  Flags, note_phase, note_certs, note_nodes, flags_of, cluster_phase,
}

abbrev has_not_failed : NodePhase → Bool
has_not_failed phase = elim phase [
  | NodePhase.critical ↦ false
  | NodePhase.failed ↦ false
  | _ ↦ true
]

abbrev is_at_work : NodePhase → Bool
is_at_work phase = elim phase [
  | NodePhase.renewing ↦ true
  | NodePhase.rolling_back ↦ true
  | _ ↦ false
]

abbrev needs_hands : NodePhase → Bool
needs_hands phase = elim phase [ NodePhase.critical ↦ true | _ ↦ false ]

abbrev all_valid : List CertStatus → Bool
all_valid certs = all (λ c. c.status == "OK") certs

-- No certificate of the node needs attention, and its last pass did not fail.
abbrev pub is_healthy : String × NodeStatus → Bool
is_healthy (_, ns) = has_not_failed ns.phase && all_valid ns.certs

abbrev pub is_renewing : String × NodeStatus → Bool
is_renewing (_, ns) = is_at_work ns.phase

abbrev pub is_critical : String × NodeStatus → Bool
is_critical (_, ns) = needs_hands ns.phase

note_certs_lem :
    (certs : List CertStatus) (h r c : Bool)
    → note_certs certs (record { healthy = h; renewing = r; critical = c })
      ≡ record { healthy = h && all (λ x. x.status == "OK") certs; renewing = r; critical = c }
unfolding note_certs
note_certs_lem [] h r c = ground arith
note_certs_lem (x ∷ certs) h r c =
    ground (arith, note_certs_lem certs h r c, note_certs_lem certs false r c)

note_node_lem :
    (phase : NodePhase) (certs : List CertStatus) (h r c : Bool)
    → note_certs certs (note_phase phase (record { healthy = h; renewing = r; critical = c }))
      ≡ record {
        healthy = h && (has_not_failed phase && all_valid certs);
        renewing = r || is_at_work phase;
        critical = c || needs_hands phase;
      }
note_node_lem NodePhase.critical certs h r c = ground (arith, note_certs_lem certs false r true)
note_node_lem NodePhase.failed certs h r c = ground (arith, note_certs_lem certs false r c)
note_node_lem NodePhase.renewing certs h r c = ground (arith, note_certs_lem certs h true c)
note_node_lem NodePhase.rolling_back certs h r c = ground (arith, note_certs_lem certs h true c)
note_node_lem NodePhase.unset certs h r c = ground (arith, note_certs_lem certs h r c)
note_node_lem NodePhase.idle certs h r c = ground (arith, note_certs_lem certs h r c)
note_node_lem NodePhase.detecting certs h r c = ground (arith, note_certs_lem certs h r c)

note_nodes_lem :
    (nodes : List (String × NodeStatus)) (h r c : Bool)
    → note_nodes nodes (record { healthy = h; renewing = r; critical = c }) ≡ record {
      healthy = h && all is_healthy nodes;
      renewing = r || any is_renewing nodes;
      critical = c || any is_critical nodes;
    }
unfolding note_nodes
note_nodes_lem [] h r c = ground arith
note_nodes_lem ((k, ns) ∷ nodes) h r c =
    ap (note_nodes nodes) (note_node_lem ns.phase ns.certs h r c)
    ∙ note_nodes_lem nodes _ _ _
    ∙ ground arith

flags_of_by :
    (nodes : List (String × NodeStatus))
    → flags_of nodes ≡ record {
      healthy = all is_healthy nodes;
      renewing = any is_renewing nodes;
      critical = any is_critical nodes;
    }
unfolding flags_of
flags_of_by nodes = note_nodes_lem nodes true false false

all-Permᴰ : {A : Type 0} (p : A → Bool) {xs ys : List A} → Permᴰ xs ys → all p xs ≡ all p ys
all-Permᴰ p nil = refl
all-Permᴰ p (cons e q) = ground (arith, all-Permᴰ p q)
all-Permᴰ p (swap e e') = ground arith
all-Permᴰ p (trans q r) = all-Permᴰ p q ∙ all-Permᴰ p r

any-Permᴰ : {A : Type 0} (p : A → Bool) {xs ys : List A} → Permᴰ xs ys → any p xs ≡ any p ys
any-Permᴰ p nil = refl
any-Permᴰ p (cons e q) = ground (arith, any-Permᴰ p q)
any-Permᴰ p (swap e e') = ground arith
any-Permᴰ p (trans q r) = any-Permᴰ p q ∙ any-Permᴰ p r

flags_of-Permᴰ : {xs ys : List (String × NodeStatus)} → Permᴰ xs ys → flags_of xs ≡ flags_of ys
flags_of-Permᴰ {xs} {ys} p = rw (
  flags_of_by xs,
  flags_of_by ys,
  all-Permᴰ is_healthy p,
  any-Permᴰ is_renewing p,
  any-Permᴰ is_critical p,
)

Flags-IsSet : IsSet Flags
Flags-IsSet = hlevel

-- Two visits of the same entries in different orders, as Go's maps give them, yield the same flags.
pub flags_of-Perm : (xs ys : List (String × NodeStatus)) → Perm xs ys → flags_of xs ≡ flags_of ys
flags_of-Perm xs ys p = ∥∥₁_elim p (Flags-IsSet _ _) flags_of-Permᴰ

-- The cluster has failed if some node is critical, is renewing if none is and some node is renewing
-- or rolling back, and is idle otherwise; its certificates count as healthy just if no node has
-- failed or is critical and every recorded certificate is OK.
pub flags_of_lem :
    (nodes : List (String × NodeStatus))
    → ((flags_of nodes).healthy ≡ all is_healthy nodes)
      × (cluster_phase (flags_of nodes) ≡ (
          if any is_critical nodes
          then ClusterPhase.failed
          else if any is_renewing nodes
          then ClusterPhase.renewing
          else ClusterPhase.idle))
unfolding cluster_phase
flags_of_lem nodes = (ap (λ f. f.healthy) (flags_of_by nodes), rw (flags_of_by nodes))
