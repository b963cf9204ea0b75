-- ===== src/Edge/Bloom/Membership.antt =====
-- No false negatives, and what the filter hides (edge/bloom.go).
use lynk.Base.{
  ℕ, zero, suc, ◌+◌, ◌<◌, ◌≡◌, refl, ◌↔◌, Bytes, true, false, List, [], ◌∷◌, Option, some, length,
  arith, inl, inr, Option-cases,
}
use mathlib.Core.List.{Memᴰ}
use lynk.Edge.Bloom.{
  Filter, position, set_bit, is_clear, add_rounds, test_rounds, bloom_hashes, bloom_k,
  add_to_filter, in_filter, is_revoked, blacklist_key, listen, new_filter, zeros,
}
use lynk.Edge.Bloom.Words.{
  length-zeros, position-lt, length-set_bit, set_bit-is_clear, is_clear-set_bit, is_clear-zeros,
}

-- The filter has a word for every position, so no index is out of range.
abbrev pub IsFull : Filter → Type 0
IsFull f = length f ≡ 225_000

pub new_filter-IsFull : IsFull new_filter
unfolding new_filter
new_filter-IsFull = length-zeros 225_000

module _ (h1 h2 : ℕ) where
  add_rounds-IsFull : (left i : ℕ) (f : Filter) → IsFull f → IsFull (add_rounds left i h1 h2 f)
  unfolding add_rounds
  add_rounds-IsFull zero i f v = v
  add_rounds-IsFull (suc left) i f v =
      add_rounds-IsFull left (i + 1) (set_bit f (position h1 h2 i))
        (omega (arith, length-set_bit f (position h1 h2 i)))

  add_rounds-keeps :
      (left i other : ℕ) (f : Filter)
      → is_clear f other ≡ false
      → is_clear (add_rounds left i h1 h2 f) other ≡ false
  unfolding add_rounds
  add_rounds-keeps zero i other f h = h
  add_rounds-keeps (suc left) i other f h =
      add_rounds-keeps left (i + 1) other (set_bit f (position h1 h2 i))
        (is_clear-set_bit f (position h1 h2 i) other h)

  test-add_rounds :
      (left i : ℕ) (f : Filter)
      → IsFull f
      → test_rounds left i h1 h2 (add_rounds left i h1 h2 f) ≡ true
  unfolding add_rounds test_rounds
  test-add_rounds zero i f v = refl
  test-add_rounds (suc left) i f v =
      let pos = position h1 h2 i in
      let g = set_bit f pos in
      rw
        (add_rounds-keeps left (i + 1) pos g
          (set_bit-is_clear f pos (omega (arith, position-lt h1 h2 i))))
        (test-add_rounds left (i + 1) g (omega (arith, length-set_bit f pos)))

module _ (k1 k2 : ℕ) where
  test_rounds_mono :
      (h1 h2 more j left i : ℕ) (f : Filter)
      → test_rounds left i k1 k2 f ≡ true
      → test_rounds left i k1 k2 (add_rounds more j h1 h2 f) ≡ true
  unfolding test_rounds
  test_rounds_mono h1 h2 more j zero i f h = refl
  test_rounds_mono h1 h2 more j (suc left) i f h = ground (
    arith,
    add_rounds-keeps h1 h2 more j (position k1 k2 i) f,
    test_rounds_mono h1 h2 more j left (i + 1) f,
  )

add_to_filter-IsFull : (jti : Bytes) (f : Filter) → IsFull f → IsFull (add_to_filter jti f)
unfolding add_to_filter
add_to_filter-IsFull jti f v =
    let (h1, h2) = bloom_hashes jti in add_rounds-IsFull h1 h2 bloom_k 0 f v

in_filter-add_self :
    (jti : Bytes) (f : Filter) → IsFull f → in_filter jti (add_to_filter jti f) ≡ true
unfolding add_to_filter in_filter
in_filter-add_self jti f v = let (h1, h2) = bloom_hashes jti in test-add_rounds h1 h2 bloom_k 0 f v

in_filter-add_mono :
    (jti other : Bytes) (f : Filter)
    → in_filter jti f ≡ true
    → in_filter jti (add_to_filter other f) ≡ true
unfolding add_to_filter in_filter
in_filter-add_mono jti other f h =
    let (k1, k2) = bloom_hashes jti in
    let (h1, h2) = bloom_hashes other in test_rounds_mono k1 k2 h1 h2 bloom_k 0 bloom_k 0 f h

listen_mono :
    (jti : Bytes) (msgs : List Bytes) (f : Filter)
    → in_filter jti f ≡ true
    → in_filter jti (listen msgs f) ≡ true
unfolding listen
listen_mono jti [] f h = h
listen_mono jti (m ∷ msgs) f h =
    listen_mono jti msgs (add_to_filter m f) (in_filter-add_mono jti m f h)

-- No false negatives: in a filter of full size, every id that was among the messages heard is in
-- the filter afterwards, whatever else was heard before and after it.
pub listen-in_filter :
    (jti : Bytes) (msgs : List Bytes) (f : Filter)
    → IsFull f
    → Memᴰ jti msgs
    → in_filter jti (listen msgs f) ≡ true
unfolding listen
listen-in_filter jti [] f v h = elim h [ ]
listen-in_filter jti (m ∷ msgs) f v (Memᴰ.head e) =
    rw e (listen_mono m msgs (add_to_filter m f) (in_filter-add_self m f v))
listen-in_filter jti (m ∷ msgs) f v (Memᴰ.tail t) =
    listen-in_filter jti msgs (add_to_filter m f) (add_to_filter-IsFull m f v) t

module _ (exists : Bytes → Option ℕ) (g : Filter) (jti : Bytes) where
  rejected-exists :
      is_revoked exists g jti ≡ true → (n : ℕ) × (exists (blacklist_key jti) ≡ some n) × (0 < n)
  unfolding is_revoked
  rejected-exists h = elim (Option-cases (exists (blacklist_key jti))) [
    | inl e ↦ absurd (ground arith)
    | inr (n, e) ↦ (n, e, ground arith)
  ]

  exists-rejected :
      in_filter jti g ≡ true
      → (n : ℕ) → exists (blacklist_key jti) ≡ some n
      → 0 < n
      → is_revoked exists g jti ≡ true
  unfolding is_revoked
  exists-rejected i n e h = rw (i, e) (ground arith)

-- When the id, if Redis holds it as revoked, was among the messages heard, the filter does not
-- change the answer: the token is rejected exactly when Redis replies that its key exists, with a
-- count above 0. So an error of Redis lets it pass.
pub is_revoked_transparent :
    (exists : Bytes → Option ℕ) (msgs : List Bytes) (f : Filter) (jti : Bytes)
    → IsFull f
    → ((n : ℕ) → exists (blacklist_key jti) ≡ some n → 0 < n → Memᴰ jti msgs)
    → (is_revoked exists (listen msgs f) jti ≡ true)
      ↔ ((n : ℕ) × (exists (blacklist_key jti) ≡ some n) × (0 < n))
is_revoked_transparent exists msgs f jti v heard = (
  rejected-exists exists (listen msgs f) jti,
  λ (n, e, h).
      exists-rejected exists (listen msgs f) jti (listen-in_filter jti msgs f v (heard n e h)) n e
        h,
)

test_rounds-zeros : (n left i h1 h2 : ℕ) → test_rounds (suc left) i h1 h2 (zeros n) ≡ false
unfolding test_rounds
test_rounds-zeros n left i h1 h2 = rw (is_clear-zeros n (position h1 h2 i))

-- The filter of a gateway that has just started rejects no token at all, also those that Redis
-- holds as revoked.
pub new_filter-is_revoked :
    (exists : Bytes → Option ℕ) (jti : Bytes) → is_revoked exists new_filter jti ≡ false
unfolding is_revoked in_filter new_filter
new_filter-is_revoked exists jti =
    let (h1, h2) = bloom_hashes jti in rw (test_rounds-zeros 225_000 9 0 h1 h2)
