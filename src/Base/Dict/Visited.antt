-- ===== src/Base/Dict/Visited.antt =====
-- The entries that a loop over a map visits.
use cert_rotator.Base.Tests.{◌==◌, string_eq, Bool-cases}
use cert_rotator.Base.Lists.{contains}
use cert_rotator.Base.Dict.{Dict, lookup, select}
use Prim.Native.String.{String}
use mathlib.Core.Path.{◌≡◌, ap, ◌∙◌}
use mathlib.Core.Logic.{◌⊎◌, inl, inr}
use mathlib.Core.Bool.{true}
use mathlib.Core.Option.{Option, none, some}
use mathlib.Core.List.{List, [], ◌∷◌}
use native.Mathlib.Omega.{arith}

module _ {V : Type 0} where
  -- The entry is one of the list.
  abbrev pub Listed : String → V → List (String × V) → Type 0
  Listed k v [] = ⊥
  Listed k v ((j, w) ∷ entries) = ((j ≡ k) × (w ≡ v)) ⊎ Listed k v entries

  selected :
      (k j : String) (v : V) (found : Option V) (rest : List (String × V))
      → found ≡ some v
      → j ≡ k
      → Listed k v (elim found [ none ↦ rest | some w ↦ (j, w) ∷ rest ])
  selected k j v none rest found same = cc
  selected k j v (some w) rest found same = inl (same, cc)

  passed :
      (k j : String) (v : V) (found : Option V) (rest : List (String × V))
      → Listed k v rest
      → Listed k v (elim found [ none ↦ rest | some w ↦ (j, w) ∷ rest ])
  passed k j v none rest listed = listed
  passed k j v (some w) rest listed = inr listed

  pub select-Listed :
      (k : String) (v : V) (ks : List String) (d : Dict V)
      → contains k ks ≡ true
      → lookup k d ≡ some v
      → Listed k v (select ks d)
  select-Listed k v [] d visited found = cc
  select-Listed k v (j ∷ ks) d visited found = elim (Bool-cases (k == j)) [
    | inl here ↦
        let same : j ≡ k = ground (arith, here) in
        selected k j v (lookup j d) (select ks d) (ap (λ i. lookup i d) same ∙ found) same
    | inr other ↦
        passed k j v (lookup j d) (select ks d)
          (select-Listed k v ks d (ground (arith, visited, other)) found)
  ]
