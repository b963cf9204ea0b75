-- ===== src/Platform/Memory/Limit.antt =====
-- The soft limit against the hard one.
use lynk.Base.{ℕ, ◌*◌, ◌/◌, ◌^◌, ◌≤◌, ◌<◌, ◌≡◌, arith, some}
use lynk.Platform.Memory.{nine_tenths}

-- It is never above nine tenths of the hard limit, even where the product wraps around.
nine_tenths-le : (x v : ℕ) → nine_tenths x ≡ some v → 10 * v ≤ 9 * x
unfolding nine_tenths
nine_tenths-le x v h = ground (arith, h)

-- Below an exbibyte it is nine tenths of it, rounded down.
nine_tenths_exact : (x : ℕ) → x < 2 ^ 59 → nine_tenths x ≡ some (9 * x / 10)
unfolding nine_tenths
nine_tenths_exact x h = ground (arith, h)
