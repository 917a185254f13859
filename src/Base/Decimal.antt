-- ===== src/Base/Decimal.antt =====
-- Decimal text of numbers: `String(n)`, and `parseInt(s, 10)` on the digits that a text begins with.
use Prim.Native.Nat.{ℕ, zero, suc, ◌+◌, ◌-◌, ◌*◌, ◌/◌, ◌%◌}
use Prim.Native.Char.{Char, code}
use Prim.Native.String.{String, [], ◌∷◌}
use mathlib.Core.Bool.{Bool, ◌&&◌}
use mathlib.Core.Option.{Option, none, some}
use market_place.Base.Tests.{if◌then◌else◌, leb, ltb, ◌==◌}

abbrev pub digit_char : ℕ → Char
digit_char d =
    if d == 0
    then "0"
    else if d == 1
    then "1"
    else if d == 2
    then "2"
    else if d == 3
    then "3"
    else if d == 4
    then "4"
    else if d == 5
    then "5"
    else if d == 6
    then "6"
    else if d == 7
    then "7"
    else if d == 8
    then "8"
    else "9"

unfoldable pub digits_from : ℕ → ℕ → String → String
digits_from zero n rest = rest
digits_from (suc fuel) n rest =
    let more = digits_from fuel (n / 10) (digit_char (n % 10) ∷ rest) in
    if ltb n 10 then digit_char n ∷ rest else more

-- `n + 1` rounds are enough for the digits of `n`
unfoldable pub digits : ℕ → String
unfolding digits_from
digits n = digits_from (suc n) n ""

abbrev pub is_digit : Char → Bool
is_digit c = leb b'0' (code c) && leb (code c) b'9'

-- the value of the leading digits, from the left, and the rest of the text
unfoldable pub parse_digits : ℕ → String → ℕ × String
parse_digits n [] = (n, "")
parse_digits n (c ∷ s) =
    let rest = parse_digits (n * 10 + (code c - b'0')) s in if is_digit c then rest else (n, c ∷ s)

-- `none` stands for NaN
unfoldable pub parse_int : String → Option ℕ
unfolding parse_digits
parse_int [] = none
parse_int (c ∷ s) = if is_digit c then some (parse_digits 0 (c ∷ s)).0 else none
