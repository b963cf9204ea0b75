-- ===== src/Base/Bits.antt =====
-- `&` and `|` on machine words, from the recursion on binary digits that they stand for.
use Prim.Native.Nat.{
  ℕ, zero, suc, ◌+◌, ◌*◌, ◌/◌, ◌%◌, ◌≤◌, min, max, bit_and, bit_or, digits, bit_and-bitwise,
  bit_or-bitwise,
}
use mathlib.Core.Path.{◌≡◌, refl}
use native.Mathlib.Omega.{arith}

-- More fuel than the first operand changes nothing.
module _ (base : ℕ → ℕ) (digit : ℕ → ℕ → ℕ) where
  digits-enough : (n m a b : ℕ) → a ≤ n → a ≤ m → digits base digit n a b ≡ digits base digit m a b
  digits-enough n m zero b p q = both_zero n m b
    where
      both_zero : (n m b : ℕ) → digits base digit n zero b ≡ digits base digit m zero b
      both_zero zero zero b = refl
      both_zero zero (suc m) b = refl
      both_zero (suc n) zero b = refl
      both_zero (suc n) (suc m) b = refl
  digits-enough zero m (suc a) b p q = absurd (omega arith)
  digits-enough (suc n) zero (suc a) b p q = absurd (omega arith)
  digits-enough (suc n) (suc m) (suc a) b p q =
      rw (digits-enough n m (suc a / 2) (b / 2) (omega arith) (omega arith))

pub bit_and-halves : (a b : ℕ) → bit_and a b ≡ 2 * bit_and (a / 2) (b / 2) + min (a % 2) (b % 2)
bit_and-halves zero b = omega (arith, bit_and-bitwise 0 b, bit_and-bitwise 0 (b / 2))
bit_and-halves (suc a) b = omega (
  arith,
  bit_and-bitwise (suc a) b,
  bit_and-bitwise (suc a / 2) (b / 2),
  digits-enough (λ _. 0) min a (suc a / 2) (suc a / 2) (b / 2) (omega arith) (omega arith),
)

pub bit_or-halves : (a b : ℕ) → bit_or a b ≡ 2 * bit_or (a / 2) (b / 2) + max (a % 2) (b % 2)
bit_or-halves zero b = omega (arith, bit_or-bitwise 0 b, bit_or-bitwise 0 (b / 2))
bit_or-halves (suc a) b = omega (
  arith,
  bit_or-bitwise (suc a) b,
  bit_or-bitwise (suc a / 2) (b / 2),
  digits-enough (λ y. y) max a (suc a / 2) (suc a / 2) (b / 2) (omega arith) (omega arith),
)

bit_and-zero_below : (n a : ℕ) → a ≤ n → bit_and a 0 ≡ 0
bit_and-zero_below n zero h = refl
bit_and-zero_below zero (suc a) h = absurd (omega arith)
bit_and-zero_below (suc n) (suc a) h =
    omega (arith, bit_and-halves (suc a) 0, bit_and-zero_below n (suc a / 2) (omega arith))

bit_or-half : (w v : ℕ) → bit_or w v / 2 ≡ bit_or (w / 2) (v / 2)
bit_or-half w v = omega (arith, bit_or-halves w v)

masked-halves :
    (w v p : ℕ)
    → bit_and (bit_or w v) p
      ≡ 2 * bit_and (bit_or (w / 2) (v / 2)) (p / 2) + min (max (w % 2) (v % 2)) (p % 2)
masked-halves w v p =
    rw (← bit_or-half w v) (omega (arith, bit_or-halves w v, bit_and-halves (bit_or w v) p))

masked_below : (n w p : ℕ) → p ≤ n → bit_and (bit_or w p) p ≡ p
masked_below n w zero h = bit_and-zero_below (bit_or w 0) (bit_or w 0) (omega arith)
masked_below zero w (suc p) h = absurd (omega arith)
masked_below (suc n) w (suc p) h =
    omega (arith, masked-halves w (suc p) (suc p), masked_below n (w / 2) (suc p / 2) (omega arith))

-- The bits that were just set are set.
pub bit_and-bit_or_self : (w p : ℕ) → bit_and (bit_or w p) p ≡ p
bit_and-bit_or_self w p = masked_below p w p (omega arith)

grows_below : (n w v p : ℕ) → p ≤ n → bit_and w p ≤ bit_and (bit_or w v) p
grows_below n w v zero h = omega (arith, bit_and-zero_below w w (omega arith))
grows_below zero w v (suc p) h = absurd (omega arith)
grows_below (suc n) w v (suc p) h = omega (
  arith,
  masked-halves w v (suc p),
  bit_and-halves w (suc p),
  grows_below n (w / 2) (v / 2) (suc p / 2) (omega arith),
)

-- Setting bits clears none.
pub bit_and-bit_or_mono : (w v p : ℕ) → bit_and w p ≤ bit_and (bit_or w v) p
bit_and-bit_or_mono w v p = grows_below p w v p (omega arith)

pub zero-bit_and : (b : ℕ) → bit_and 0 b ≡ 0
zero-bit_and b = bit_and-bitwise 0 b
