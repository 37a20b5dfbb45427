-- ===== src/Base/Numbers.antt =====
-- What the program uses of Go's strconv package: decimal integers of 64 bits.
use Prim.Native.Char.{code}
use Prim.Native.String.{String}
use Prim.Native.Nat.{ℕ, zero, suc, ◌+◌, ◌-◌, ◌*◌}
use mathlib.Core.Path.{◌≡◌, refl}
use mathlib.Core.Bool.{◌&&◌}
use mathlib.Core.Option.{Option, none, some}
use purp_tape.Base.Tests.{◌==◌, leb, if◌then◌else◌}
use purp_tape.Base.Int.{ℤ, pos, negsuc, max_int}

-- The number that digits continue; `none` at anything else.
digits_from : ℕ → String → Option ℕ
digits_from n String.[] = some n
digits_from n (String.◌∷◌ c s) =
    let rest = digits_from (n * 10 + (code c - b'0')) s in
    if leb b'0' (code c) && leb (code c) b'9' then rest else none

unsigned : String → Option ℕ
unfolding digits_from
unsigned String.[] = none
unsigned (String.◌∷◌ c s) = digits_from 0 (String.◌∷◌ c s)

non_negative : Option ℕ → Option ℤ
non_negative none = none
non_negative (some n) = if leb n max_int then some (pos n) else none

negative : Option ℕ → Option ℤ
negative none = none
negative (some zero) = some (pos 0)
negative (some (suc n)) = if leb n max_int then some (negsuc n) else none

-- strconv.Atoi; `none` is its error.
unfoldable pub atoi : String → Option ℤ
unfolding unsigned non_negative negative
atoi String.[] = none
atoi (String.◌∷◌ c s) =
    if code c == b'+'
    then non_negative (unsigned s)
    else if code c == b'-'
    then negative (unsigned s)
    else non_negative (unsigned (String.◌∷◌ c s))

number_tests :
    (atoi "20" ≡ some (pos 20))
    × (atoi "-3" ≡ some (negsuc 2))
    × (atoi "+7" ≡ some (pos 7))
    × (atoi "-" ≡ none)
    × (atoi "1x" ≡ none)
    × (atoi "9223372036854775808" ≡ none)
    × (atoi "-9223372036854775808" ≡ some (negsuc max_int))
unfolding atoi
number_tests = (refl, refl, refl, refl, refl, refl, refl)
