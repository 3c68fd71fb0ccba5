-- ===== src/Base/Decimal.antt =====
-- What the program uses of `fmt.Sprintf`: %d and %02x of a number.
use Prim.Native.Char.{code}
use Prim.Native.Nat.{ℕ, zero, suc, ◌+◌, ◌-◌, ◌*◌, ◌/◌, ◌%◌}
use Prim.Native.String.{String, ◌++◌}
use mathlib.Core.Bool.{◌&&◌}
use mathlib.Core.Option.{Option, none, some}
use computer_host.Base.Int.{ℤ, pos, negsuc}
use computer_host.Base.Tests.{ltb, leb, ◌==◌, if◌then◌else◌}

hex_digit : ℕ → String
hex_digit n =
    if n == 0
    then "0"
    else if n == 1
    then "1"
    else if n == 2
    then "2"
    else if n == 3
    then "3"
    else if n == 4
    then "4"
    else if n == 5
    then "5"
    else if n == 6
    then "6"
    else if n == 7
    then "7"
    else if n == 8
    then "8"
    else if n == 9
    then "9"
    else if n == 10
    then "a"
    else if n == 11
    then "b"
    else if n == 12
    then "c"
    else if n == 13
    then "d"
    else if n == 14
    then "e"
    else "f"

-- With more fuel than the number has digits, which a fuel above the number is.
decimal_digits : ℕ → ℕ → String
decimal_digits zero n = ""
decimal_digits (suc fuel) n =
    let rest = decimal_digits fuel (n / 10) in
    if ltb n 10 then hex_digit n else rest ++ hex_digit (n % 10)

unfoldable pub decimal : ℕ → String
unfolding decimal_digits hex_digit
decimal n = decimal_digits (suc n) n

-- A byte in two hexadecimal digits.
unfoldable pub hex_byte : ℕ → String
unfolding hex_digit
hex_byte n = hex_digit (n / 16) ++ hex_digit (n % 16)

-- The value of a text of decimal digits, after those with the value `n`.
unfoldable pub digits_value : ℕ → String → Option ℕ
digits_value n String.[] = some n
digits_value n (String.◌∷◌ c s) =
    let rest = digits_value (10 * n + (code c - 48)) s in
    if leb 48 (code c) && leb (code c) 57 then rest else none

unsigned : String → Option ℕ
unfolding digits_value
unsigned String.[] = none
unsigned (String.◌∷◌ c s) = digits_value 0 (String.◌∷◌ c s)

in_range : Option ℕ → Option ℤ
in_range none = none
in_range (some n) = if ltb n 9223372036854775808 then some (pos n) else none

in_range_negated : Option ℕ → Option ℤ
in_range_negated none = none
in_range_negated (some zero) = some (pos 0)
in_range_negated (some (suc n)) = if ltb n 9223372036854775808 then some (negsuc n) else none

-- strconv.Atoi, on 64 bits.
unfoldable pub atoi : String → Option ℤ
unfolding unsigned in_range in_range_negated
atoi String.[] = none
atoi (String.◌∷◌ c s) =
    if code c == b'-'
    then in_range_negated (unsigned s)
    else if code c == b'+'
    then in_range (unsigned s)
    else in_range (unsigned (String.◌∷◌ c s))
