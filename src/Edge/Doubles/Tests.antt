-- ===== src/Edge/Doubles/Tests.antt =====
-- The arithmetic of doubles on numbers known from the standard.
use lynk.Base.{◌≡◌, refl, ◌^◌, ◌+◌}
use lynk.Edge.Doubles.{exponent_from, exponent, round_to, round, quotient, weighted}

round_even : round (2 ^ 53 + 1) ≡ 2 ^ 53
unfolding round round_to exponent exponent_from
round_even = refl

round_up : round (2 ^ 53 + 3) ≡ 2 ^ 53 + 4
unfolding round round_to exponent exponent_from
round_up = refl

-- 29, and not 30: the double next to 0.29 lies below it.
below : weighted 100 (quotient 17400 60000) 1 ≡ 29
unfolding weighted quotient round round_to exponent exponent_from
below = refl
