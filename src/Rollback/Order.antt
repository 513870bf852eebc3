-- ===== src/Rollback/Order.antt =====
-- The order in which nodes are rolled back.
use cert_rotator.Base.{
  String, List, [], ◌∷◌, ◌≡◌, refl, ◌∙◌, true, false, ◌||◌, contains, ◌==◌, string_eq, arith, ap,
}
use mathlib.Core.List
use cert_rotator.Rollback.Reverse.{Distinct, reverse_lem, contains-reverse, Distinct-reverse}
use cert_rotator.Rollback.{reverse, unique_from, nodes_to_rollback}

-- Set equality of what the loop keeps: every name that is listed and not seen.
contains-unique_from :
    (n : String) (seen nodes : List String)
    → contains n seen ≡ false
    → contains n (unique_from seen nodes) ≡ contains n nodes
unfolding unique_from
contains-unique_from n seen [] h = refl
contains-unique_from n seen (m ∷ nodes) h =
    ground (arith, contains-unique_from n seen nodes h, contains-unique_from n (m ∷ seen) nodes)

-- What was seen is not kept again.
unique_from_fresh :
    (n : String) (seen nodes : List String)
    → contains n seen ≡ true
    → contains n (unique_from seen nodes) ≡ false
unfolding unique_from
unique_from_fresh n seen [] h = refl
unique_from_fresh n seen (m ∷ nodes) h =
    ground (arith, unique_from_fresh n seen nodes, unique_from_fresh n (m ∷ seen) nodes)

unique_from-Distinct : (seen nodes : List String) → Distinct (unique_from seen nodes)
unfolding unique_from
unique_from-Distinct seen [] = tt
unique_from-Distinct seen (m ∷ nodes) = ground (
  arith,
  unique_from-Distinct seen nodes,
  unique_from-Distinct (m ∷ seen) nodes,
  unique_from_fresh m (m ∷ seen) nodes,
)

-- The nodes to roll back are the failed node and the renewed ones, each once and no other.
pub nodes_to_rollback_once :
    (renewed : List String) (failed : String)
    → ((n : String)
        → contains n (nodes_to_rollback renewed failed) ≡ (n == failed || contains n renewed))
      × Distinct (nodes_to_rollback renewed failed)
unfolding nodes_to_rollback
nodes_to_rollback_once renewed failed = (
  λ n. contains-unique_from n [] (failed ∷ reverse renewed) refl ∙ kept n,
  unique_from-Distinct [] (failed ∷ reverse renewed),
)
  where
    kept : (n : String) → contains n (failed ∷ reverse renewed) ≡ contains n (failed ∷ renewed)
    kept n = rw (reverse_lem renewed) (ground (arith, contains-reverse n renewed))

unique_from-id :
    (seen nodes : List String)
    → ((n : String) → contains n nodes ≡ true → contains n seen ≡ false)
    → Distinct nodes
    → unique_from seen nodes ≡ nodes
unfolding unique_from
unique_from-id seen [] apart h = refl
unique_from-id seen (m ∷ nodes) apart h =
    rw (apart m (ground arith))
      (ap (◌∷◌ m) (unique_from-id (m ∷ seen) nodes (λ n listed. ground (arith, apart n)) h.1))

-- If no node is listed twice among the renewed ones and the failed node is not among them, the
-- failed node is rolled back first, and the renewed ones follow from the last to the first.
pub nodes_to_rollback_order :
    (renewed : List String) (failed : String)
    → Distinct renewed
    → contains failed renewed ≡ false
    → nodes_to_rollback renewed failed ≡ failed ∷ List.reverse renewed
unfolding nodes_to_rollback
nodes_to_rollback_order renewed failed once apart = rw (reverse_lem renewed) (
    unique_from-id [] (failed ∷ List.reverse renewed) (λ n _. refl)
      (contains-reverse failed renewed ∙ apart, Distinct-reverse renewed once))
