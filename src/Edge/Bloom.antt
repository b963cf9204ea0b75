-- ===== src/Edge/Bloom.antt =====
-- The revocation filter of the gateway (services/gateway/internal/edge/bloom.go). A `uint64` is a
-- number below 2 ^ 64; the mutex makes each call one step, so calls are a sequence.
pub mod Words
pub mod Membership
mod Tests
use lynk.Base.{
  ℕ, zero, suc, ◌+◌, ◌*◌, ◌/◌, ◌%◌, ◌^◌, bit_and, bit_or, bit_xor, Bytes, codes, Bool, true, false,
  List, [], ◌∷◌, ◌++◌, Option, none, some, get_or, set, ltb, ◌==◌, if◌then◌else◌,
}

abbrev pub bloom_m : ℕ
bloom_m = 14_400_000

abbrev pub bloom_k : ℕ
bloom_k = 10

abbrev pub u64_mod : ℕ
u64_mod = 2 ^ 64

-- `hash/fnv`: FNV-1a on 64 bits.
pub fnv1a : ℕ → Bytes → ℕ
fnv1a h [] = h
fnv1a h (c ∷ s) = fnv1a (bit_xor h c * 1099511628211 % u64_mod) s

abbrev fnv_offset : ℕ
fnv_offset = 14695981039346656037

-- `bits.RotateLeft64(x, 17)`
pub rotate_left_17 : ℕ → ℕ
rotate_left_17 x = bit_or (x * 2 ^ 17 % u64_mod) (x / 2 ^ 47)

pub bloom_hashes : Bytes → ℕ × ℕ
unfolding fnv1a rotate_left_17
bloom_hashes s =
    let h1 = fnv1a fnv_offset s in (h1, bit_or (bit_xor (rotate_left_17 h1) 0x9e3779b97f4a7c15) 1)

-- `(h1 + i*h2) % bloomM`, where the sum and the product wrap.
pub position : ℕ → ℕ → ℕ → ℕ
position h1 h2 i = (h1 + i * h2 % u64_mod) % u64_mod % bloom_m

abbrev pub Filter : Type 0
Filter = List ℕ

pub zeros : ℕ → Filter
zeros zero = []
zeros (suc n) = 0 ∷ zeros n

-- The filter of `NewTokenBlacklist`: (bloomM + 63) / 64 words.
pub new_filter : Filter
unfolding zeros
new_filter = zeros ((bloom_m + 63) / 64)

-- `filter[pos/64] |= 1 << (pos % 64)`
pub set_bit : Filter → ℕ → Filter
set_bit f pos = set f (pos / 64) (bit_or (get_or f (pos / 64) 0) (2 ^ (pos % 64)))

-- `filter[pos/64] & (1 << (pos % 64)) == 0`
pub is_clear : Filter → ℕ → Bool
is_clear f pos = bit_and (get_or f (pos / 64) 0) (2 ^ (pos % 64)) == 0

-- The loop of `addToFilter`: the rounds that are left, then `i`.
add_rounds : ℕ → ℕ → ℕ → ℕ → Filter → Filter
unfolding set_bit position
add_rounds zero i h1 h2 f = f
add_rounds (suc left) i h1 h2 f = add_rounds left (i + 1) h1 h2 (set_bit f (position h1 h2 i))

pub add_to_filter : Bytes → Filter → Filter
unfolding bloom_hashes add_rounds
add_to_filter jti f = let (h1, h2) = bloom_hashes jti in add_rounds bloom_k 0 h1 h2 f

-- The loop of `inFilter`.
test_rounds : ℕ → ℕ → ℕ → ℕ → Filter → Bool
unfolding is_clear position
test_rounds zero i h1 h2 f = true
test_rounds (suc left) i h1 h2 f =
    let rest = test_rounds left (i + 1) h1 h2 f in
    if is_clear f (position h1 h2 i) then false else rest

pub in_filter : Bytes → Filter → Bool
unfolding bloom_hashes test_rounds
in_filter jti f = let (h1, h2) = bloom_hashes jti in test_rounds bloom_k 0 h1 h2 f

pub blacklist_key : Bytes → Bytes
blacklist_key jti = codes "jwt:blacklist:" ++ jti

-- `exists` is the reply of Redis to EXISTS on a key, `none` an error.
pub is_revoked : (Bytes → Option ℕ) → Filter → Bytes → Bool
is_revoked exists f jti =
    if in_filter jti f
    then elim (exists (blacklist_key jti)) [ none ↦ false | some n ↦ ltb 0 n ]
    else false

-- The listener of `Subscribe`: every published id is added, in the order of the messages.
pub listen : List Bytes → Filter → Filter
listen [] f = f
listen (jti ∷ msgs) f = listen msgs (add_to_filter jti f)
