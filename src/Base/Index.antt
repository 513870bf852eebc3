-- ===== src/Base/Index.antt =====
-- Lists read at an index.
use mathlib.Core.List
use mathlib.Core.List.{reverse-cons}
use Prim.Native.Nat.{ℕ, zero, suc, ◌-◌, ◌≤◌, ◌<◌}
use mathlib.Core.Path.{◌≡◌, refl, ap}
use mathlib.Core.List.{List, [], ◌∷◌, ◌++◌}
use mathlib.Core.Option.{none, some}
use native.Mathlib.Omega.{arith}
use cert_rotator.Base.Tests.{ltb, ◌==◌, nat_eq, if◌then◌else◌}
use cert_rotator.Base.Lists.{length, get_elem?, set, length-append}

module _ {ℓ} {A : Type ℓ} where
  pub length-set : (xs : List A) (i : ℕ) (v : A) → length (set xs i v) ≡ length xs
  length-set [] i v = refl
  length-set (x ∷ xs) zero v = refl
  length-set (x ∷ xs) (suc i) v = ap suc (length-set xs i v)

  pub get_elem?-set :
      (xs : List A) (i k : ℕ) (v : A)
      → i < length xs
      → get_elem? (set xs i v) k ≡ (if k == i then some v else get_elem? xs k)
  get_elem?-set [] i k v h = elim h [ ]
  get_elem?-set (x ∷ xs) zero zero v h = ground arith
  get_elem?-set (x ∷ xs) zero (suc k) v h = ground arith
  get_elem?-set (x ∷ xs) (suc i) zero v h = ground arith
  get_elem?-set (x ∷ xs) (suc i) (suc k) v h = ground (arith, get_elem?-set xs i k v)

  -- Within the bounds there is an element, and nowhere else.
  pub get_elem?-some : (xs : List A) (i : ℕ) → i < length xs → (a : A) × (get_elem? xs i ≡ some a)
  get_elem?-some [] i h = elim h [ ]
  get_elem?-some (x ∷ xs) zero h = (x, refl)
  get_elem?-some (x ∷ xs) (suc i) h = get_elem?-some xs i (omega arith)

  pub get_elem?-none : (xs : List A) (i : ℕ) → length xs ≤ i → get_elem? xs i ≡ none
  get_elem?-none [] i h = refl
  get_elem?-none (x ∷ xs) zero h = absurd (omega arith)
  get_elem?-none (x ∷ xs) (suc i) h = get_elem?-none xs i (omega arith)

  pub get_elem?-append :
      (xs ys : List A) (k : ℕ)
      → get_elem? (xs ++ ys) k
        ≡ (if ltb k (length xs) then get_elem? xs k else get_elem? ys (k - length xs))
  get_elem?-append [] ys k = ground arith
  get_elem?-append (x ∷ xs) ys zero = ground arith
  get_elem?-append (x ∷ xs) ys (suc k) = ground (arith, get_elem?-append xs ys k)

  -- Two lists with the same element at every index are equal.
  pub get_elem?-ext : (xs ys : List A) → ((k : ℕ) → get_elem? xs k ≡ get_elem? ys k) → xs ≡ ys
  get_elem?-ext [] [] h = refl
  get_elem?-ext [] (y ∷ ys) h = cc (h 0)
  get_elem?-ext (x ∷ xs) [] h = cc (h 0)
  get_elem?-ext (x ∷ xs) (y ∷ ys) h = cc (h 0, get_elem?-ext xs ys (λ k. h (suc k)))

  pub length-reverse : (xs : List A) → length (List.reverse xs) ≡ length xs
  length-reverse [] = refl
  length-reverse (x ∷ xs) =
      rw (reverse-cons x xs)
        (omega (arith, length-append (List.reverse xs) (x ∷ []), length-reverse xs))

  get_elem?-cons :
      (x : A) (xs : List A) (n : ℕ)
      → get_elem? (x ∷ xs) n ≡ (if n == 0 then some x else get_elem? xs (n - 1))
  get_elem?-cons x xs zero = ground arith
  get_elem?-cons x xs (suc n) = ground arith

  pub get_elem?-reverse :
      (xs : List A) (k : ℕ)
      → get_elem? (List.reverse xs) k
        ≡ (if ltb k (length xs) then get_elem? xs (length xs - 1 - k) else none)
  get_elem?-reverse [] k = ground arith
  get_elem?-reverse (x ∷ xs) k = rw (reverse-cons x xs) (
      ground (
        arith,
        get_elem?-append (List.reverse xs) (x ∷ []) k,
        get_elem?-reverse xs k,
        length-reverse xs,
        get_elem?-cons x xs (length xs - k),
        get_elem?-cons x [] (k - length xs),
      ))
