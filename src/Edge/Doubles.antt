-- ===== src/Edge/Doubles.antt =====
-- The doubles that the script of services/gateway/internal/edge/ratelimit.go computes with: Lua's
-- numbers. A double between 2^-128 and 2^900 stands here as a multiple of 2^-129, and one that is
-- whole also as itself; the script meets no other.
pub mod Error
pub mod Weighted
mod Tests
use lynk.Base.{
  ℕ, zero, suc, ◌+◌, ◌-◌, ◌*◌, ◌/◌, ◌%◌, ◌^◌, Bool, true, false, ◌&&◌, ◌||◌, ltb, ◌==◌,
  if◌then◌else◌,
}

-- Numbers below it have all of their bits in a double.
abbrev pub mantissas : ℕ
mantissas = 2 ^ 53

-- The first `b` from here on for which 53 bits above the lowest `b` hold the number.
unfoldable pub exponent_from : (fuel b x : ℕ) → ℕ
exponent_from zero b x = b
exponent_from (suc fuel) b x = elim (ltb x (mantissas * 2 ^ b)) [
  | true ↦ b
  | false ↦ exponent_from fuel (suc b) x
]

-- Every number is below that power of two, so that it is fuel enough.
unfoldable pub exponent : ℕ → ℕ
exponent x = exponent_from x 0 x

-- To the nearest multiple of `d`, and of two that are as near to the even one.
unfoldable pub round_to : ℕ → ℕ → ℕ
round_to x d =
    if ltb (2 * (x % d)) d || ((2 * (x % d) == d) && (x / d % 2 == 0))
    then x / d * d
    else (x / d + 1) * d

unfoldable pub round : ℕ → ℕ
round x = round_to x (2 ^ exponent x)

-- One, as a multiple of 2^-129.
abbrev pub one_scaled : ℕ
one_scaled = 2 ^ 129

-- The quotient of two whole numbers, the first not above the second: one bit in front of those that
-- are kept says that the division left something.
unfoldable pub quotient : ℕ → ℕ → ℕ
quotient a b = let n = a * 2 ^ 128 in round (2 * (n / b) + (if n % b == 0 then 0 else 1))

-- `math.floor(prev * weight + curr)` on two whole numbers and a weight from 2^-64 to one.
unfoldable pub weighted : (prev weight curr : ℕ) → ℕ
weighted prev weight curr =
    round (round (round prev * weight) + round curr * one_scaled) / one_scaled
