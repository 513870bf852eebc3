-- ===== src/Base/Decimal/Parse.antt =====
-- `strconv.Atoi`
use Prim.Native.Nat.{ℕ, zero, suc, ◌+◌, ◌-◌, ◌*◌, ◌^◌}
use Prim.Native.Char.{code}
use Prim.Native.String.{String}
use mathlib.Core.Bool.{◌&&◌}
use mathlib.Core.Option.{Option, none, some}
use cert_rotator.Base.Tests.{leb, if◌then◌else◌, ◌==◌, nat_eq}
use cert_rotator.Base.Int.{ℤ, pos, negsuc}

-- The number that the digits stand for after a number. Its range is tested at the end.
unfoldable pub scan : String → ℕ → Option ℕ
scan String.[] n = some n
scan (String.◌∷◌ c s) n =
    let rest = scan s (n * 10 + (code c - 48)) in
    if leb 48 (code c) && leb (code c) 57 then rest else none

unfoldable pub magnitude : String → Option ℕ
magnitude String.[] = none
magnitude (String.◌∷◌ c s) = scan (String.◌∷◌ c s) 0

abbrev pub up_to : ℕ → (ℕ → ℤ) → Option ℕ → Option ℤ
up_to bound sign none = none
up_to bound sign (some n) = if leb n bound then some (sign n) else none

abbrev pub negative : ℕ → ℤ
negative zero = pos 0
negative (suc n) = negsuc n

unfoldable pub atoi : String → Option ℤ
atoi String.[] = none
atoi (String.◌∷◌ c s) =
    if code c == 45
    then up_to (2 ^ 63) negative (magnitude s)
    else if code c == 43
    then up_to (2 ^ 63 - 1) pos (magnitude s)
    else up_to (2 ^ 63 - 1) pos (magnitude (String.◌∷◌ c s))
