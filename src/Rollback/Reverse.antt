-- ===== src/Rollback/Reverse.antt =====
-- The in-place reversal.
use cert_rotator.Base.{
  ℕ, zero, suc, ◌+◌, ◌-◌, ◌<◌, String, List, [], ◌∷◌, ◌≡◌, refl, ◌&&◌, none, some, length,
  get_elem?, set, ◌==◌, nat_eq, if◌then◌else◌, ltb, leb, arith, sym, ◌∙◌, contains, ◌++◌, ◌||◌,
  false, string_eq,
}
use cert_rotator.Base.Index.{
  length-set, get_elem?-set, get_elem?-some, get_elem?-none, get_elem?-ext, get_elem?-reverse,
}
use mathlib.Core.List
use mathlib.Core.List.{reverse-cons}
use cert_rotator.Rollback.{swap, swap_loop, reverse}

-- No name is listed twice.
abbrev pub Distinct : List String → Type 0
Distinct [] = Unit
Distinct (n ∷ nodes) = (contains n nodes ≡ false) × Distinct nodes

-- An exchange within the bounds.
swap-set :
    (xs : List String) (i j : ℕ) {a b : String}
    → get_elem? xs i ≡ some a
    → get_elem? xs j ≡ some b
    → swap xs i j ≡ set (set xs i b) j a
unfolding swap
swap-set xs i j p q = ground arith

length-swap :
    (xs : List String) (i j : ℕ) → i < length xs → j < length xs → length (swap xs i j) ≡ length xs
length-swap xs i j hi hj =
    let (a, p) = get_elem?-some xs i hi in
    let (b, q) = get_elem?-some xs j hj in
    rw (swap-set xs i j p q) (length-set (set xs i b) j a ∙ length-set xs i b)

get_elem?-swap :
    (xs : List String) (i j k : ℕ)
    → i < length xs
    → j < length xs
    → get_elem? (swap xs i j) k
      ≡ (if k == j then get_elem? xs i else if k == i then get_elem? xs j else get_elem? xs k)
get_elem?-swap xs i j k hi hj =
    let (a, p) = get_elem?-some xs i hi in
    let (b, q) = get_elem?-some xs j hj in
    rw (swap-set xs i j p q)
      (ground (arith, get_elem?-set (set xs i b) j k a, get_elem?-set xs i k b, length-set xs i b))

-- From `i` to `j` the loop turns the list round, and elsewhere it leaves it alone.
get_elem?-swap_loop :
    (fuel i j : ℕ) (xs : List String) (k : ℕ)
    → j < length xs
    → j < i + fuel
    → get_elem? (swap_loop fuel i j xs) k
      ≡ (if leb i k && leb k j then get_elem? xs (i + j - k) else get_elem? xs k)
unfolding swap_loop
get_elem?-swap_loop zero i j xs k hj hf = ground arith
get_elem?-swap_loop (suc fuel) i j xs k hj hf = ground (
  arith,
  get_elem?-swap_loop fuel (i + 1) (j - 1) (swap xs i j) k,
  get_elem?-swap xs i j (i + 1 + (j - 1) - k),
  get_elem?-swap xs i j k,
  length-swap xs i j,
)

reverse_at :
    (nodes : List String) (k : ℕ)
    → 0 < length nodes
    → get_elem? (swap_loop (length nodes) 0 (length nodes - 1) nodes) k
      ≡ (if ltb k (length nodes) then get_elem? nodes (length nodes - 1 - k) else none)
reverse_at nodes k h =
    ground (
      arith,
      get_elem?-swap_loop (length nodes) 0 (length nodes - 1) nodes k,
      get_elem?-none nodes k,
    )

-- The in-place loop reverses its copy of the list.
pub reverse_lem : (nodes : List String) → reverse nodes ≡ List.reverse nodes
unfolding reverse swap_loop
reverse_lem [] = refl
reverse_lem (n ∷ nodes) =
    get_elem?-ext _ _
      λ k. reverse_at (n ∷ nodes) k (omega arith) ∙ sym (get_elem?-reverse (n ∷ nodes) k)

contains-append :
    (n : String) (xs ys : List String) → contains n (xs ++ ys) ≡ (contains n xs || contains n ys)
contains-append n [] ys = refl
contains-append n (x ∷ xs) ys = ground (arith, contains-append n xs ys)

pub contains-reverse :
    (n : String) (nodes : List String) → contains n (List.reverse nodes) ≡ contains n nodes
contains-reverse n [] = refl
contains-reverse n (x ∷ nodes) =
    rw
      (
        reverse-cons x nodes,
        contains-append n (List.reverse nodes) (x ∷ []),
        contains-reverse n nodes,
      )
      (ground arith)

Distinct-append :
    (xs : List String) (y : String)
    → Distinct xs
    → contains y xs ≡ false
    → Distinct (xs ++ (y ∷ []))
Distinct-append [] y h out = (refl, tt)
Distinct-append (x ∷ xs) y h out =
    ground (arith, Distinct-append xs y, contains-append x xs (y ∷ []))

pub Distinct-reverse : (nodes : List String) → Distinct nodes → Distinct (List.reverse nodes)
Distinct-reverse [] h = tt
Distinct-reverse (x ∷ nodes) h = rw (reverse-cons x nodes) (
    Distinct-append (List.reverse nodes) x (Distinct-reverse nodes h.1)
      (contains-reverse x nodes ∙ h.0))
