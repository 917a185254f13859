-- ===== src/Base/JsValue.antt =====
-- The JavaScript values that the code tests by `typeof`, and `toPositiveInt` of
-- src/common/helpers/id.helpers.ts. A number that is no natural number is `other`.
use Prim.Native.Nat.{ℕ}
use Prim.Native.String.{String}
use mathlib.Core.Bool.{Bool, false}
use mathlib.Core.Option.{Option, none, some}
use market_place.Base.Tests.{if◌then◌else◌, ◌==◌}
use market_place.Base.Decimal.{parse_digits, is_digit}
use market_place.Base.Double.{whole_double}

-- `number` is a non-negative integer that is a double; `other` is null, undefined, an object, a fraction, and so on
pub data JsValue : Type 0 where
  number : ℕ → JsValue
  text : String → JsValue
  other : JsValue

-- a text of decimal digits and nothing else
unfoldable pub whole_number : String → Option ℕ
whole_number String.[] = none
whole_number (String.◌∷◌ c s) =
    if is_digit c
    then (let (n, rest) = parse_digits 0 (String.◌∷◌ c s) in
        elim rest as (λ _. Option ℕ) [ String.[] ↦ some n | _ ↦ none ])
    else none

abbrev positive : ℕ → Option ℕ
positive n = if n == 0 then none else some n

abbrev positive_double : Option ℕ → Option ℕ
positive_double none = none
positive_double (some n) = positive n

-- `Number(value)` of the digits of `n` is the double nearest to `n`, and Infinity is no integer.
abbrev number_of_digits : Option ℕ → Option ℕ
number_of_digits none = none
number_of_digits (some n) = positive_double (whole_double n)

-- `Number(value)` accepts more texts than digits (spaces round them, exponents, hexadecimal); ids
-- are written as digits, and of the other texts nothing is claimed: they are `other`.
unfoldable pub to_positive_int : JsValue → Option ℕ
to_positive_int (number n) = positive n
to_positive_int (text s) = number_of_digits (whole_number s)
to_positive_int other = none

-- `value === n`
abbrev pub is_number : JsValue → ℕ → Bool
is_number (number m) n = m == n
is_number _ n = false
