-- ===== src/Base/DecimalText.antt =====
-- The decimal text of an id is read as the id: `toPositiveInt` of src/common/helpers/id.helpers.ts on
-- a BIGINT that the driver hands out as text.
use Prim.Native.Nat.{ℕ, zero, suc, ◌+◌, ◌-◌, ◌*◌, ◌/◌, ◌%◌, ◌^◌, ◌<◌, ◌≤◌}
use Prim.Native.Char.{code}
use Prim.Native.String.{String, [], ◌∷◌}
use mathlib.Core.Path.{◌≡◌, refl, ap, ◌∙◌}
use mathlib.Core.Logic.{inl, inr}
use mathlib.Core.Bool.{Bool, true, false}
use mathlib.Core.Option.{some}
use native.Mathlib.Omega.{arith}
use market_place.Base.Tests.{ltb, ◌==◌, Bool-cases}
use market_place.Base.Decimal.{digit_char, digits_from, digits, is_digit, parse_digits}
use market_place.Base.Double.{whole_double, nearest_double, whole_double-le}
use market_place.Base.JsValue.{text, whole_number, to_positive_int}

digit_char-value :
    (d : ℕ) → d < 10 → (is_digit (digit_char d) ≡ true) × (code (digit_char d) - b'0' ≡ d)
digit_char-value zero small = (refl, refl)
digit_char-value (suc zero) small = (refl, refl)
digit_char-value (suc (suc zero)) small = (refl, refl)
digit_char-value (suc (suc (suc zero))) small = (refl, refl)
digit_char-value (suc (suc (suc (suc zero)))) small = (refl, refl)
digit_char-value (suc (suc (suc (suc (suc zero))))) small = (refl, refl)
digit_char-value (suc (suc (suc (suc (suc (suc zero)))))) small = (refl, refl)
digit_char-value (suc (suc (suc (suc (suc (suc (suc zero))))))) small = (refl, refl)
digit_char-value (suc (suc (suc (suc (suc (suc (suc (suc zero)))))))) small = (refl, refl)
digit_char-value (suc (suc (suc (suc (suc (suc (suc (suc (suc zero))))))))) small = (refl, refl)
digit_char-value (suc (suc (suc (suc (suc (suc (suc (suc (suc (suc d)))))))))) small =
    ground (arith, small)

parse_digits-digit :
    (acc d : ℕ) (rest : String)
    → d < 10
    → parse_digits acc (digit_char d ∷ rest) ≡ parse_digits (acc * 10 + d) rest
unfolding parse_digits
parse_digits-digit acc d rest small =
    let value = digit_char-value d small in rw (value.0, value.1) refl

-- A fuel above the number is enough: the digits that are written are read as the number.
parse_digits-digits_from :
    (fuel n : ℕ) (rest : String)
    → n < fuel
    → parse_digits 0 (digits_from fuel n rest) ≡ parse_digits n rest
unfolding digits_from
parse_digits-digits_from zero n rest h = ground (arith, h)
parse_digits-digits_from (suc fuel) n rest h = elim (Bool-cases (ltb n 10)) [
  | inl small ↦
      let small' : n < 10 = ground (arith, small) in
      rw small (parse_digits-digit 0 n rest small' ∙ ap (λ m. parse_digits m rest) (omega arith))
  | inr large ↦
      let below : n / 10 < fuel = ground (arith, large, h) in
      let whole : n / 10 * 10 + n % 10 ≡ n = omega arith in
      rw
        (
          large,
          parse_digits-digits_from fuel (n / 10) (digit_char (n % 10) ∷ rest) below,
          parse_digits-digit (n / 10) (n % 10) rest (omega arith),
          whole,
        )
        refl
]

unfoldable starts_with_digit : String → Bool
starts_with_digit [] = false
starts_with_digit (c ∷ s) = is_digit c

digits_from-starts_with_digit :
    (fuel n : ℕ) (rest : String) → n < fuel → starts_with_digit (digits_from fuel n rest) ≡ true
unfolding digits_from starts_with_digit
digits_from-starts_with_digit zero n rest h = ground (arith, h)
digits_from-starts_with_digit (suc fuel) n rest h = elim (Bool-cases (ltb n 10)) [
  | inl small ↦ let below : n < 10 = ground (arith, small) in rw small (digit_char-value n below).0
  | inr large ↦
      let below : n / 10 < fuel = ground (arith, large, h) in
      rw large (digits_from-starts_with_digit fuel (n / 10) (digit_char (n % 10) ∷ rest) below)
]

whole_number-parsed :
    (n : ℕ) (s : String)
    → starts_with_digit s ≡ true
    → parse_digits 0 s ≡ (n, "")
    → whole_number s ≡ some n
unfolding whole_number starts_with_digit
whole_number-parsed n [] h read = ground (arith, h)
whole_number-parsed n (c ∷ s) h read = rw (h, read) (ap (λ (r : ℕ × String). some r.0) read)

-- The decimal text of a positive number up to 2^53, as the driver hands out a BIGINT, is read as that
-- number; the rounds that `digits` is given are enough. (A larger number is rounded to a double.)
pub to_positive_int-digits :
    (n : ℕ) → 0 < n → n ≤ 2 ^ 53 → to_positive_int (text (digits n)) ≡ some n
unfolding to_positive_int digits parse_digits
to_positive_int-digits n positive exact =
    let below : n < suc n = omega arith in
    let read =
      whole_number-parsed n (digits n) (digits_from-starts_with_digit (suc n) n "" below)
        (parse_digits-digits_from (suc n) n "" below) in
    let nonzero : (n == 0) ≡ false = ground (arith, positive) in
    rw (to_positive_int, read, whole_double-le n exact, nonzero) refl

-- Two ids above 2^53 may be read as one.
to_positive_int-rounds :
    to_positive_int (text "9007199254740993") ≡ to_positive_int (text "9007199254740992")
unfolding to_positive_int whole_number parse_digits whole_double nearest_double
to_positive_int-rounds = refl
