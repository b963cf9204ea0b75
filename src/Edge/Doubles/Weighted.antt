-- ===== src/Edge/Doubles/Weighted.antt =====
-- The script's total (edge/ratelimit.go) against the exact one.
use lynk.Base.{
  ℕ, ◌+◌, ◌*◌, ◌/◌, ◌%◌, ◌^◌, ◌≤◌, ◌<◌, ◌≡◌, ◌⊎◌, inl, inr, refl, Bool, true, false, ltb, arith,
  ◌==◌, if◌then◌else◌,
}
use native.Mathlib.Nat.{mul-le-mul_left}
use lynk.Edge.Doubles.{round, one_scaled, quotient, weighted}
use lynk.Edge.Doubles.Error.{round-near, round_small, round_keeps}

-- The total is not below the count of the window itself, as far as doubles hold whole numbers.
pub weighted_keeps :
    (prev weight curr m : ℕ) → m ≤ 2 ^ 53 → m ≤ curr → m ≤ weighted prev weight curr
unfolding weighted
weighted_keeps prev weight curr m small h =
    let whole = round_keeps curr m 0 small (omega (arith, h)) in
    let sum = round (round prev * weight) + round curr * one_scaled in
    let total = round_keeps sum m 129 small (omega (arith, whole)) in omega (arith, total)

-- The weight lies within 2^-53 of the share of a minute that is left.
quotient-near :
    (d : ℕ)
    → d ≤ 60000
    → (60000 * quotient d 60000 ≤ d * 2 ^ 129 + 2 ^ 93)
      × (d * 2 ^ 129 ≤ 60000 * quotient d 60000 + 2 ^ 93)
unfolding quotient
quotient-near d h =
    let n = d * 2 ^ 128 in
    let near = round-near (2 * (n / 60000) + (if n % 60000 == 0 then 0 else 1)) in
    ground (arith, near)

-- So the product with a count lies within 2^123 units of the sixty-thousandth of one.
product-near :
    (prev d : ℕ)
    → prev < 2 ^ 30
    → d ≤ 60000
    → (60000 * (prev * quotient d 60000) ≤ prev * d * 2 ^ 129 + 2 ^ 123)
      × (prev * d * 2 ^ 129 ≤ 60000 * (prev * quotient d 60000) + 2 ^ 123)
product-near prev d small h =
    let (above, below) = quotient-near d h in
    (
      omega (arith, small, mul-le-mul_left prev above),
      omega (arith, small, mul-le-mul_left prev below),
    )

-- Numbers within 2^126 units of the sixty-thousandth of `a`.
floor_near :
    (total a : ℕ)
    → 60000 * total ≤ a * 2 ^ 129 + 2 ^ 128
    → a * 2 ^ 129 ≤ 60000 * total + 2 ^ 128
    → (total / 2 ^ 129 ≡ a / 60000) ⊎ ((total / 2 ^ 129 + 1 ≡ a / 60000) × (a % 60000 ≡ 0))
floor_near total a above below = go (ltb total (a / 60000 * 2 ^ 129)) refl
  where
    go :
        (b : Bool)
        → ltb total (a / 60000 * 2 ^ 129) ≡ b
        → (total / 2 ^ 129 ≡ a / 60000) ⊎ ((total / 2 ^ 129 + 1 ≡ a / 60000) × (a % 60000 ≡ 0))
    go false e = inl (omega (arith, above, below, reached))
      where
        reached : a / 60000 * 2 ^ 129 ≤ total
        reached = ground (arith, e)
    go true e = inr (omega (arith, above, below, short), omega (arith, above, below, short))
      where
        short : total < a / 60000 * 2 ^ 129
        short = ground (arith, e)

total-near :
    (product a curr : ℕ)
    → curr < 2 ^ 30
    → a < 2 ^ 46
    → 60000 * product ≤ a * 2 ^ 129 + 2 ^ 123
    → a * 2 ^ 129 ≤ 60000 * product + 2 ^ 123
    → let total = round (round product + curr * 2 ^ 129) in
      (60000 * total ≤ (a + 60000 * curr) * 2 ^ 129 + 2 ^ 128)
      × ((a + 60000 * curr) * 2 ^ 129 ≤ 60000 * total + 2 ^ 128)
total-near product a curr c h above below =
    omega
      (arith, c, h, above, below, round-near product, round-near (round product + curr * 2 ^ 129))

-- On counts below 2^30 the script's total is the exact one, rounded down, except that it may be one
-- less where the exact one is whole.
pub weighted-exact :
    (prev d curr : ℕ)
    → prev < 2 ^ 30
    → curr < 2 ^ 30
    → d ≤ 60000
    → let r = weighted prev (quotient d 60000) curr in
      let exact = prev * d / 60000 + curr in
      (r ≡ exact) ⊎ ((r + 1 ≡ exact) × (prev * d % 60000 ≡ 0))
unfolding weighted
weighted-exact prev d curr p c h =
    let (above, below) = product-near prev d p h in
    let total = round (round (prev * quotient d 60000) + curr * 2 ^ 129) in
    let (over, under) =
      total-near (prev * quotient d 60000) (prev * d) curr c
        (omega (arith, p, h, mul-le-mul_left prev h)) above below in
    rw (round_small prev (omega (arith, p)), round_small curr (omega (arith, c)))
      (elim (floor_near total (prev * d + 60000 * curr) over under) [
        | inl e ↦ inl (omega (arith, e))
        | inr (e, z) ↦ inr (omega (arith, e), omega (arith, z))
      ])
