-- ===== src/Edge/Doubles/Error.antt =====
-- How far the arithmetic of doubles (edge/ratelimit.go's script) lies from the exact one.
use lynk.Base.{
  ℕ, zero, suc, ◌+◌, ◌*◌, ◌/◌, ◌^◌, ◌≤◌, ◌<◌, ◌≡◌, refl, ap, ◌∙◌, subst, sym, ◌⊎◌, inl, inr, arith,
}
use native.Mathlib.Nat.{pow-suc, mul-le-mul_left, mul-le-mul_right}
use lynk.Edge.Doubles.{mantissas, exponent_from, exponent, round_to, round}

two_pow_suc : (b : ℕ) → 2 ^ suc b ≡ 2 * 2 ^ b
two_pow_suc b = omega (arith, pow-suc 2 b)

below_two_pow : (x : ℕ) → x < 2 ^ x
below_two_pow zero = omega arith
below_two_pow (suc x) = omega (arith, below_two_pow x, two_pow_suc x)

-- The exponent is zero, or the number needs all of its 53 bits.
Filled : ℕ → ℕ → Type 0
Filled x b = (b ≡ 0) ⊎ (2 ^ 52 * 2 ^ b ≤ x)

exponent_from-Filled : (fuel b x : ℕ) → Filled x b → Filled x (exponent_from fuel b x)
unfolding exponent_from Filled
exponent_from-Filled zero b x h = h
exponent_from-Filled (suc fuel) b x h =
    ground (arith, h, two_pow_suc b, exponent_from-Filled fuel (suc b) x)

round_to-near : (x d : ℕ) → 0 < d → (2 * x ≤ 2 * round_to x d + d) × (2 * round_to x d ≤ 2 * x + d)
unfolding round_to
round_to-near x d p = ground arith

exponent_from-Bounds :
    (fuel b x : ℕ) → x < mantissas * 2 ^ (b + fuel) → x < mantissas * 2 ^ exponent_from fuel b x
unfolding exponent_from
exponent_from-Bounds zero b x h = subst (λ n. x < mantissas * 2 ^ n) (omega arith) h
exponent_from-Bounds (suc fuel) b x h =
    let rest =
      exponent_from-Bounds fuel (suc b) x (subst (λ n. x < mantissas * 2 ^ n) (omega arith) h) in
    ground (arith, rest)

-- The fuel is enough: 53 bits above the exponent hold the number.
exponent-Bounds : (x : ℕ) → x < mantissas * 2 ^ exponent x
unfolding exponent
exponent-Bounds x =
    exponent_from-Bounds x 0 x
      (subst (λ n. x < mantissas * 2 ^ n) {x = x} (omega arith) (omega (arith, below_two_pow x)))

two_pow_pos : (b : ℕ) → 0 < 2 ^ b
two_pow_pos zero = omega arith
two_pow_pos (suc b) = omega (arith, two_pow_pos b, two_pow_suc b)

round_to-one : (x : ℕ) → round_to x 1 ≡ x
unfolding round_to
round_to-one x = ground arith

round_to-Filled :
    (x b : ℕ)
    → Filled x b
    → let y = round_to x (2 ^ b) in (x * 2 ^ 53 ≤ y * 2 ^ 53 + x) × (y * 2 ^ 53 ≤ x * 2 ^ 53 + x)
unfolding Filled
round_to-Filled x b (inl z) =
    subst
      (λ b.
        (x * 2 ^ 53 ≤ round_to x (2 ^ b) * 2 ^ 53 + x)
        × (round_to x (2 ^ b) * 2 ^ 53 ≤ x * 2 ^ 53 + x))
      (sym z) (omega (arith, round_to-one x))
round_to-Filled x b (inr f) =
    omega (arith, f, two_pow_pos b, round_to-near x (2 ^ b) (two_pow_pos b))

-- The relative error is at most 2^-53.
pub round-near : (x : ℕ) → (x * 2 ^ 53 ≤ round x * 2 ^ 53 + x) × (round x * 2 ^ 53 ≤ x * 2 ^ 53 + x)
unfolding round exponent Filled
round-near x = round_to-Filled x (exponent x) (exponent_from-Filled x 0 x (inl refl))

-- A number of 53 bits is a double itself.
pub round_small : (x : ℕ) → x < 2 ^ 53 → round x ≡ x
round_small x h = omega (arith, round-near x)

two_pow-add : (b c : ℕ) → 2 ^ (b + c) ≡ 2 ^ b * 2 ^ c
two_pow-add b zero = ap (λ n. 2 ^ n) {x = b + 0} {y = b} (omega arith) ∙ omega arith
two_pow-add b (suc c) =
    ap (λ n. 2 ^ n) {x = b + suc c} {y = suc (b + c)} (omega arith)
    ∙ grind (arith, two_pow_suc (b + c), two_pow_suc c, two_pow-add b c)

-- One exponent does not exceed the other, or does.
apart : (a b : ℕ) → ((c : ℕ) × (a ≡ b + c)) ⊎ ((c : ℕ) × (b ≡ suc (a + c)))
apart a zero = inl (a, omega arith)
apart zero (suc b) = inr (b, omega arith)
apart (suc a) (suc b) = elim (apart a b) [
  | inl (c, e) ↦ inl (c, omega (arith, e))
  | inr (c, e) ↦ inr (c, omega (arith, e))
]

-- Not below a multiple that the number is not below.
round_to_multiple : (x d n : ℕ) → 0 < d → n * d ≤ x → n * d ≤ round_to x d
unfolding round_to
round_to_multiple x d n p h = ground (arith, at_least)
  where
    at_least : n * d ≤ x / d * d
    at_least = elim (apart (x / d) n) [
      | inl (c, e) ↦ omega (arith, ap (λ q. q * d) e)
      | inr (c, e) ↦ absurd (omega (arith, h, p, ap (λ q. q * d) e))
    ]

-- Not below a number of 53 bits, shifted, that the number is not below.
round_to_keeps :
    (x b m a : ℕ) → Filled x b → m ≤ 2 ^ 53 → m * 2 ^ a ≤ x → m * 2 ^ a ≤ round_to x (2 ^ b)
unfolding Filled
round_to_keeps x b m a f small h = elim (apart a b) [
  | inl (c, e) ↦ grind (
    arith,
    h,
    two_pow-add b c,
    ap (λ n. 2 ^ n) e,
    round_to_multiple x (2 ^ b) (m * 2 ^ c) (two_pow_pos b),
  )
  | inr (c, e) ↦
      let unit = ap (λ n. 2 ^ n) e in
      let size = two_pow-add a c in
      omega (
        arith,
        f,
        unit,
        two_pow_suc (a + c),
        mul-le-mul_left (2 ^ a) (two_pow_pos c),
        mul-le-mul_right (2 ^ a) small,
        round_to_multiple x (2 ^ b) (2 ^ 52) (two_pow_pos b),
      )
]

pub round_keeps : (x m a : ℕ) → m ≤ 2 ^ 53 → m * 2 ^ a ≤ x → m * 2 ^ a ≤ round x
unfolding round exponent Filled
round_keeps x m a small h =
    round_to_keeps x (exponent x) m a (exponent_from-Filled x 0 x (inl refl)) small h
