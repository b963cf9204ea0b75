-- ===== src/Edge/Bloom/Tests.antt =====
-- The theorems on the revocation filter (edge/bloom.go) at concrete inputs.
use mathlib.Core.List.{Memᴰ}
use lynk.Base.{ℕ, ◌<◌, ◌≡◌, ◌↔◌, refl, Bytes, codes, true, [], ◌∷◌, Option, some}
use lynk.Edge.Bloom.{new_filter, in_filter, is_revoked, listen, fnv1a}
use lynk.Edge.Bloom.Membership.{new_filter-IsFull, listen-in_filter, is_revoked_transparent}

abbrev jti_a : Bytes
jti_a = codes "9f2c"

abbrev jti_b : Bytes
jti_b = codes "41d7"

listen-in_filter_example : in_filter jti_a (listen (jti_b ∷ jti_a ∷ []) new_filter) ≡ true
listen-in_filter_example =
    listen-in_filter jti_a (jti_b ∷ jti_a ∷ []) new_filter new_filter-IsFull
      (Memᴰ.tail (Memᴰ.head refl))

abbrev one_key : Bytes → Option ℕ
one_key k = some 1

is_revoked_transparent_example :
    (is_revoked one_key (listen (jti_a ∷ []) new_filter) jti_a ≡ true)
    ↔ ((n : ℕ) × (some 1 ≡ some n) × (0 < n))
is_revoked_transparent_example =
    is_revoked_transparent one_key (jti_a ∷ []) new_filter jti_a new_filter-IsFull
      (λ n e h. Memᴰ.head refl)

-- The published test vector of FNV-1a for "a".
fnv1a_vector : fnv1a 14695981039346656037 (codes "a") ≡ 0xaf63dc4c8601ec8c
unfolding fnv1a
fnv1a_vector = refl
