-- ===== src/Prelude/Text/Signed.antt =====
-- `str::parse` for the signed integer types.
use Prim.Native.Nat.{ℕ, zero, suc, ◌+◌}
use mathlib.Core.Option.{Option, none}
use mathlib.Core.List.{[], ◌∷◌}
use aircraft_api_r.Prelude.Tests.{◌==◌, if◌then◌else◌, map_option}
use aircraft_api_r.Prelude.Text.{Text, is_empty, parse_digits}
use aircraft_api_r.Prelude.Integers.{ℤ, pos, negsuc}

abbrev pub negate : ℕ → ℤ
negate zero = pos 0
negate (suc n) = negsuc n

abbrev pub parse_magnitude : ℕ → Text → Option ℕ
parse_magnitude bound digits = if is_empty digits then none else parse_digits bound 0 digits

-- With the largest value of the type; the smallest is one further from zero. The standard library
-- stops at the first overflow, and a number grows with its digits.
unfoldable pub parse_signed : ℕ → Text → Option ℤ
parse_signed bound [] = none
parse_signed bound (c ∷ s) =
    if c == b'-'
    then map_option negate (parse_magnitude (bound + 1) s)
    else if c == b'+'
    then map_option pos (parse_magnitude bound s)
    else map_option pos (parse_magnitude bound (c ∷ s))

abbrev pub i16_max : ℕ
i16_max = 32767

abbrev pub i32_max : ℕ
i32_max = 2147483647

abbrev pub parse_i16 : Text → Option ℤ
parse_i16 = parse_signed i16_max

abbrev pub parse_i32 : Text → Option ℤ
parse_i32 = parse_signed i32_max
