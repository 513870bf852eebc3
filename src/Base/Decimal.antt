-- ===== src/Base/Decimal.antt =====
-- `%d`: a number in decimal digits.
pub mod Parse
pub mod RoundTrip
use Prim.Native.Nat.{ℕ, zero, suc, ◌+◌, ◌/◌, ◌%◌}
use Prim.Native.String.{String, ◌++◌ as ◌<>◌}
use mathlib.Core.Path.{◌≡◌, refl}
use cert_rotator.Base.Tests.{ltb, if◌then◌else◌}
use cert_rotator.Base.Int.{ℤ, pos, negsuc}

abbrev pub digit : ℕ → String
digit n =
    if ltb n 1
    then "0"
    else if ltb n 2
    then "1"
    else if ltb n 3
    then "2"
    else if ltb n 4
    then "3"
    else if ltb n 5
    then "4"
    else if ltb n 6
    then "5"
    else if ltb n 7
    then "6"
    else if ltb n 8
    then "7"
    else if ltb n 9
    then "8"
    else "9"

-- The fuel `n + 1` suffices, since a division by ten shortens every number but 0.
unfoldable pub digits : ℕ → ℕ → String
digits zero n = ""
digits (suc fuel) n =
    let rest = digits fuel (n / 10) <> digit (n % 10) in if ltb n 10 then digit n else rest

unfoldable pub itoa : ℕ → String
unfolding digits
itoa n = digits (n + 1) n

unfoldable pub itoa_ℤ : ℤ → String
unfolding itoa
itoa_ℤ (pos n) = itoa n
itoa_ℤ (negsuc n) = "-" <> itoa (n + 1)

itoa_port : itoa 10257 ≡ "10257"
unfolding itoa
itoa_port = refl
