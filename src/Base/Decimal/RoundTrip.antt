-- ===== src/Base/Decimal/RoundTrip.antt =====
-- `strconv.Atoi` reads back what `%d` writes.
use Prim.Native.Nat.{ℕ, zero, suc, ◌+◌, ◌-◌, ◌*◌, ◌/◌, ◌%◌, ◌^◌, ◌≤◌, ◌<◌}
use Prim.Native.Char.{Char, code}
use Prim.Native.String.{String, ◌++◌ as ◌<>◌}
use Prim.Native.String.append
use native.Mathlib.Omega.{arith}
use mathlib.Core.Path.{subst, ◌≡◌, refl, sym, ap, ◌∙◌}
use mathlib.Core.Logic.{inl, inr}
use mathlib.Core.Option.{Option, none, some}
use cert_rotator.Base.Tests.{ltb, nat_eq, Bool-cases}
use cert_rotator.Base.Int.{ℤ, pos, negsuc, pos_part, neg_part}
use cert_rotator.Base.Decimal.{digits, digit, itoa, itoa_ℤ}
use cert_rotator.Base.Decimal.Parse.{scan, magnitude, up_to, negative, atoi}

scan_then : Option ℕ → String → Option ℕ
scan_then none t = none
scan_then (some n) t = scan t n

scan-append : (s t : String) (n : ℕ) → scan (s <> t) n ≡ scan_then (scan s n) t
unfolding scan scan_then
scan-append String.[] t n = ap (λ u. scan u n) (λ i. append.nil t i)
scan-append (String.◌∷◌ c s) t n =
    ap (λ u. scan u n) (λ i. append.cons c s t i)
    ∙ ground (arith, scan-append s t (n * 10 + (code c - 48)))

peel : (P : ℕ → Type 0) (k d : ℕ) → k ≤ d → P k → (suc k ≤ d → P d) → P d
peel P k d at_least here above = elim (nat_eq.dec k d) [
  | yes same ↦ subst P same here
  | no differ ↦ above (omega (arith, at_least, differ))
]

scan-digit : (d n : ℕ) → d < 10 → scan (digit d) n ≡ some (n * 10 + d)
unfolding scan
scan-digit d n small =
    let P : ℕ → Type 0 = λ e. scan (digit e) n ≡ some (n * 10 + e) in
    peel P 0 d (omega arith) refl λ l. peel P 1 d l refl λ l. peel P 2 d l refl λ l.
      peel P 3 d l refl λ l. peel P 4 d l refl λ l. peel P 5 d l refl λ l. peel P 6 d l refl λ l.
        peel P 7 d l refl
          λ l. peel P 8 d l refl λ l. peel P 9 d l refl λ l. absurd (omega (arith, l, small))

scan-digits : (fuel n : ℕ) → n < fuel → scan (digits fuel n) 0 ≡ some n
unfolding digits scan_then
scan-digits zero n enough = absurd (omega (arith, enough))
scan-digits (suc fuel) n enough = elim (Bool-cases (ltb n 10)) [
  | inl small ↦ ground (arith, small, scan-digit n 0 (ground (arith, small)))
  | inr large ↦
      let rest = scan-digits fuel (n / 10) (ground (arith, large, enough)) in
      let last = scan-digit (n % 10) (n / 10) (omega arith) in
      ground (arith, large, scan-append (digits fuel (n / 10)) (digit (n % 10)) 0, rest, last)
]

abbrev pub IsFull : String → Type 0
IsFull s = (c : Char) × (t : String) × (s ≡ String.◌∷◌ c t)

digit-IsFull : (d : ℕ) → d < 10 → IsFull (digit d)
digit-IsFull d small =
    let P : ℕ → Type 0 = λ e. IsFull (digit e) in
    peel P 0 d (omega arith) (_, _, refl)
      λ l.
        peel P 1 d l (_, _, refl)
          λ l.
            peel P 2 d l (_, _, refl)
              λ l.
                peel P 3 d l (_, _, refl)
                  λ l.
                    peel P 4 d l (_, _, refl)
                      λ l.
                        peel P 5 d l (_, _, refl)
                          λ l.
                            peel P 6 d l (_, _, refl)
                              λ l.
                                peel P 7 d l (_, _, refl)
                                  λ l.
                                    peel P 8 d l (_, _, refl)
                                      λ l.
                                        peel P 9 d l (_, _, refl)
                                          λ l. absurd (omega (arith, l, small))

append-IsFull : (s t : String) → IsFull s → IsFull (s <> t)
append-IsFull s t (c, u, same) = (c, u <> t, ap (λ v. v <> t) same ∙ (λ i. append.cons c u t i))

digits-IsFull : (fuel n : ℕ) → n < fuel → IsFull (digits fuel n)
unfolding digits
digits-IsFull zero n enough = absurd (omega (arith, enough))
digits-IsFull (suc fuel) n enough = elim (Bool-cases (ltb n 10)) [
  | inl small ↦ rw small (digit-IsFull n (ground (arith, small)))
  | inr large ↦ rw large (
      append-IsFull (digits fuel (n / 10)) (digit (n % 10))
        (digits-IsFull fuel (n / 10) (ground (arith, large, enough))))
]

-- What is read from digits.
magnitude_lem : (s : String) → IsFull s → magnitude s ≡ scan s 0
unfolding magnitude
magnitude_lem s (c, t, same) = rw same refl

unsigned_cons :
    (c : Char) (s : String) (n : ℕ)
    → scan (String.◌∷◌ c s) 0 ≡ some n
    → atoi (String.◌∷◌ c s) ≡ up_to (2 ^ 63 - 1) pos (some n)
unfolding scan magnitude atoi
unsigned_cons c s n read = ground (arith, read)

unsigned :
    (s : String) (n : ℕ) → IsFull s → scan s 0 ≡ some n → atoi s ≡ up_to (2 ^ 63 - 1) pos (some n)
unsigned s n (c, t, same) read =
    ap atoi same ∙ unsigned_cons c t n (ap (λ u. scan u 0) (sym same) ∙ read)

pub itoa-IsFull : (n : ℕ) → IsFull (itoa n)
unfolding itoa
itoa-IsFull n = digits-IsFull (n + 1) n (omega arith)

scan-itoa : (n : ℕ) → scan (itoa n) 0 ≡ some n
unfolding itoa
scan-itoa n = scan-digits (n + 1) n (omega arith)

negative_suc : (n : ℕ) → negative (n + 1) ≡ negsuc n
negative_suc n = let one_more : n + 1 ≡ suc n = omega arith in ap negative one_more

-- A string that begins with a minus sign.
signed : (t : String) → atoi (String.◌∷◌ "-" t) ≡ up_to (2 ^ 63) negative (magnitude t)
unfolding atoi native.Mathlib.Decide.ℕ_discrete
signed t = refl

-- An int64 is read back.
pub atoi-itoa_ℤ : (z : ℤ) → pos_part z < 2 ^ 63 → neg_part z ≤ 2 ^ 63 → atoi (itoa_ℤ z) ≡ some z
unfolding itoa_ℤ
atoi-itoa_ℤ (pos n) below above =
    unsigned (itoa n) n (itoa-IsFull n) (scan-itoa n) ∙ ground (arith, below)
atoi-itoa_ℤ (negsuc n) below above =
    let read : magnitude (itoa (n + 1)) ≡ some (n + 1) =
      magnitude_lem (itoa (n + 1)) (itoa-IsFull (n + 1)) ∙ scan-itoa (n + 1) in
    ap atoi (λ i. append.cons "-" "" (itoa (n + 1)) i)
    ∙ ap (λ t. atoi (String.◌∷◌ "-" t)) (λ i. append.nil (itoa (n + 1)) i)
    ∙ signed (itoa (n + 1))
    ∙ ap (up_to (2 ^ 63) negative) read
    ∙ ground (arith, above, negative_suc n)
