-- ===== src/Base/Double.antt =====
-- The whole numbers that a JavaScript number can hold: `Number(s)` rounds the decimal number that a
-- text writes to the nearest double, to the even one of two that are as near.
use Prim.Native.Nat.{ℕ, zero, suc, ◌+◌, ◌*◌, ◌/◌, ◌%◌, ◌^◌, ◌<◌, ◌≤◌}
use mathlib.Core.Path.{◌≡◌, refl}
use mathlib.Core.Logic.{inl, inr}
use mathlib.Core.Bool.{true}
use mathlib.Core.Option.{Option, none, some}
use native.Mathlib.Omega.{arith}
use market_place.Base.Tests.{if◌then◌else◌, ltb, Bool-cases}

-- the distance of neighbouring doubles at `n`, from `u` on by doubling
unfoldable pub unit_from : ℕ → ℕ → ℕ → ℕ
unit_from zero n u = u
unit_from (suc fuel) n u =
    let wider = unit_from fuel n (u * 2) in if ltb n (u * 9007199254740992) then u else wider

-- `q` units and a remainder, rounded
abbrev rounded : ℕ → ℕ → ℕ → ℕ
rounded q r u =
    if ltb (r * 2) u then q * u else if ltb u (r * 2) then (q + 1) * u else (q + q % 2) * u

-- the double nearest to `n`. 971 rounds are enough: 2^971 is the unit of the largest doubles.
unfoldable pub nearest_double : ℕ → ℕ
unfolding unit_from
nearest_double n = let u = unit_from 971 n 1 in rounded (n / u) (n % u) u

-- `none` stands for Infinity, the value from 2^1024 on
unfoldable pub whole_double : ℕ → Option ℕ
whole_double n = if ltb (nearest_double n) (2 ^ 1024) then some (nearest_double n) else none

unit_from-small : (fuel n : ℕ) → n < 9007199254740992 → unit_from (suc fuel) n 1 ≡ 1
unfolding unit_from
unit_from-small fuel n small =
    let below : ltb n (1 * 9007199254740992) ≡ true = ground arith in rw below refl

nearest_double-small : (n : ℕ) → n < 9007199254740992 → nearest_double n ≡ n
unfolding nearest_double
nearest_double-small n small = rw (unit_from-small 970 n small) (ground arith)

nearest_double-widest : nearest_double 9007199254740992 ≡ 9007199254740992
unfolding nearest_double
nearest_double-widest = refl

nearest_double-le : (n : ℕ) → n ≤ 9007199254740992 → nearest_double n ≡ n
nearest_double-le n h = elim (Bool-cases (ltb n 9007199254740992)) [
  | inl below ↦ nearest_double-small n (ground arith)
  | inr widest ↦ let same : n ≡ 9007199254740992 = ground arith in rw same nearest_double-widest
]

-- A whole number up to 2^53 is a double.
pub whole_double-le : (n : ℕ) → n ≤ 9007199254740992 → whole_double n ≡ some n
unfolding whole_double
whole_double-le n h =
    let finite : ltb n (2 ^ 1024) ≡ true = ground arith in rw (nearest_double-le n h, finite) refl

-- The first whole number that is none is rounded to the even side.
whole_double-above : whole_double 9007199254740993 ≡ some 9007199254740992
unfolding whole_double nearest_double
whole_double-above = refl

whole_double-infinite : whole_double (2 ^ 1024) ≡ none
unfolding whole_double nearest_double
whole_double-infinite = refl
