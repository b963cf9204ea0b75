-- ===== src/Edge/Bloom/Words.antt =====
-- Single bits of the filter (edge/bloom.go): where they lie, and what setting one does.
use native.Mathlib.Nat.{one-le-pow}
use lynk.Base.{
  ℕ, zero, suc, ◌/◌, ◌%◌, ◌^◌, ◌≤◌, ◌<◌, ◌≡◌, refl, bit_and, bit_or, true, false, [], ◌∷◌, get_or,
  set, length, arith, ap,
}
use lynk.Base.Bits.{bit_and-bit_or_self, bit_and-bit_or_mono, zero-bit_and}
use lynk.Edge.Bloom.{Filter, set_bit, is_clear, position, bloom_m, zeros}

pub position-lt : (h1 h2 i : ℕ) → position h1 h2 i < bloom_m
unfolding position
position-lt h1 h2 i = omega arith

length-set : (f : Filter) (i v : ℕ) → length (set f i v) ≡ length f
length-set [] i v = refl
length-set (w ∷ f) zero v = refl
length-set (w ∷ f) (suc i) v = ap suc (length-set f i v)

pub length-set_bit : (f : Filter) (pos : ℕ) → length (set_bit f pos) ≡ length f
unfolding set_bit
length-set_bit f pos = length-set f (pos / 64) _

pub length-zeros : (n : ℕ) → length (zeros n) ≡ n
unfolding zeros
length-zeros zero = refl
length-zeros (suc n) = ap suc (length-zeros n)

get_or-set_self : (f : Filter) (i v : ℕ) → i < length f → get_or (set f i v) i 0 ≡ v
get_or-set_self [] i v h = absurd (omega arith)
get_or-set_self (w ∷ f) zero v h = refl
get_or-set_self (w ∷ f) (suc i) v h = get_or-set_self f i v (omega arith)

-- A word of the filter only gains bits.
get_or-set_mono :
    (f : Filter) (i j v p : ℕ)
    → bit_and (get_or f j 0) p ≤ bit_and (get_or (set f i (bit_or (get_or f i 0) v)) j 0) p
get_or-set_mono [] i j v p = omega arith
get_or-set_mono (w ∷ f) zero zero v p = bit_and-bit_or_mono w v p
get_or-set_mono (w ∷ f) zero (suc j) v p = omega arith
get_or-set_mono (w ∷ f) (suc i) zero v p = omega arith
get_or-set_mono (w ∷ f) (suc i) (suc j) v p = get_or-set_mono f i j v p

pub set_bit-is_clear :
    (f : Filter) (pos : ℕ) → pos / 64 < length f → is_clear (set_bit f pos) pos ≡ false
unfolding set_bit is_clear
set_bit-is_clear f pos h =
    rw (get_or-set_self f (pos / 64) (bit_or (get_or f (pos / 64) 0) (2 ^ (pos % 64))) h) (
      ground (
        arith,
        bit_and-bit_or_self (get_or f (pos / 64) 0) (2 ^ (pos % 64)),
        one-le-pow (pos % 64) 2,
      ))

pub is_clear-set_bit :
    (f : Filter) (pos other : ℕ) → is_clear f other ≡ false → is_clear (set_bit f pos) other ≡ false
unfolding set_bit is_clear
is_clear-set_bit f pos other h =
    ground (arith, get_or-set_mono f (pos / 64) (other / 64) (2 ^ (pos % 64)) (2 ^ (other % 64)))

get_or-zeros : (n i : ℕ) → get_or (zeros n) i 0 ≡ 0
unfolding zeros
get_or-zeros zero i = refl
get_or-zeros (suc n) zero = refl
get_or-zeros (suc n) (suc i) = get_or-zeros n i

pub is_clear-zeros : (n pos : ℕ) → is_clear (zeros n) pos ≡ true
unfolding is_clear
is_clear-zeros n pos = ground (arith, get_or-zeros n (pos / 64), zero-bit_and (2 ^ (pos % 64)))
