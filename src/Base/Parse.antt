-- ===== src/Base/Parse.antt =====
-- `str::parse` to an `i64` and `from_str_radix` of hex digits, on bytes.
use Prim.Native.Nat.{ℕ, ◌+◌, ◌-◌, ◌*◌}
use mathlib.Core.Bool.{◌&&◌}
use mathlib.Core.List.{[], ◌∷◌}
use mathlib.Core.Option.{Option, none, some}
use clutch_treasury.Base.Tests.{◌==◌, ltb, leb, if◌then◌else◌}
use clutch_treasury.Base.Strings.{Text}
use clutch_treasury.Base.Int.{ℤ, pos, sub_ℕ, i64_bound}

-- Decimal digits after a value read so far.
unfoldable pub parse_digits : ℕ → Text → Option ℕ
parse_digits value [] = some value
parse_digits value (c ∷ t) =
    let rest = parse_digits (10 * value + (c - 48)) t in if leb 48 c && leb c 57 then rest else none

abbrev unsigned : Text → Option ℕ
unsigned [] = none
unsigned (c ∷ t) = parse_digits 0 (c ∷ t)

abbrev within_i64 : Option ℕ → Option ℤ
within_i64 none = none
within_i64 (some n) = if ltb n i64_bound then some (pos n) else none

abbrev negated_i64 : Option ℕ → Option ℤ
negated_i64 none = none
negated_i64 (some n) = if leb n i64_bound then some (sub_ℕ 0 n) else none

-- Digits after at most one sign, in range.
abbrev signed : (Text → Option ℕ) → Text → Option ℤ
signed digits [] = none
signed digits (c ∷ t) =
    if c == b'-'
    then negated_i64 (digits t)
    else if c == b'+'
    then within_i64 (digits t)
    else within_i64 (digits (c ∷ t))

-- `parse::<i64>`.
unfoldable pub parse_i64 : Text → Option ℤ
unfolding parse_digits
parse_i64 t = signed unsigned t

-- The value of a hex digit of either case.
abbrev pub hex_digit : ℕ → Option ℕ
hex_digit c =
    if leb 48 c && leb c 57
    then some (c - 48)
    else if leb 97 c && leb c 102
    then some (c - 87)
    else if leb 65 c && leb c 70
    then some (c - 55)
    else none

abbrev next_nibble : ℕ → Option ℕ → Option ℕ
next_nibble value none = none
next_nibble value (some d) = some (16 * value + d)

unfoldable pub parse_hex : Option ℕ → Text → Option ℕ
parse_hex none t = none
parse_hex (some value) [] = some value
parse_hex (some value) (c ∷ t) = parse_hex (next_nibble value (hex_digit c)) t

abbrev pub unsigned_hex : Text → Option ℕ
unsigned_hex [] = none
unsigned_hex (c ∷ t) = parse_hex (some 0) (c ∷ t)

-- `i64::from_str_radix(t, 16)`.
unfoldable pub parse_hex_i64 : Text → Option ℤ
unfolding parse_hex
parse_hex_i64 t = signed unsigned_hex t

-- `trim_start_matches('0')`.
unfoldable pub trim_zeros : Text → Text
trim_zeros [] = []
trim_zeros (c ∷ t) = let rest = trim_zeros t in if c == b'0' then rest else c ∷ t
