-- ===== src/Platform/Secure/Uuid.antt =====
-- Identifiers: their shape, and that they sort by the time of their creation (uuid.go).
use lynk.Base.{
  ℕ, ◌*◌, ◌/◌, ◌%◌, ◌^◌, ◌<◌, ◌≤◌, ap, ap₂, ◌≡◌, refl, ◌⊎◌, inl, inr, arith, Bytes, Bool, true,
  false, ◌&&◌, ◌||◌, List, [], ◌∷◌, ◌++◌, ltb, ◌==◌, take,
}
use lynk.Identity.Domain.{new_user_id}
use lynk.Effects.{ok}
use lynk.Platform.Secure.{
  hex_digit, hex, big_endian64, with_version, with_variant, uuid_bytes, uuid_text, uuid_v7,
}

-- `<` on Go strings, which is also that of a B-tree in the C collation.
unfoldable pub string_lt : Bytes → Bytes → Bool
string_lt a [] = false
string_lt [] (y ∷ b) = true
string_lt (x ∷ a) (y ∷ b) = ltb x y || (x == y && string_lt a b)

new_user_id-uuid_v7 :
    (ms : ℕ) (random : ℕ → ℕ) → new_user_id (uuid_v7 ms random) ≡ ok (uuid_v7 ms random)
unfolding new_user_id uuid_v7 uuid_bytes uuid_text hex
new_user_id-uuid_v7 ms random = refl

-- The digits of two numbers, digit by digit.
string_lt-later : (a b : ℕ) (s t : Bytes) → a < b → string_lt (a ∷ s) (b ∷ t) ≡ true
unfolding string_lt
string_lt-later a b s t h = ground arith

string_lt-same :
    (a b : ℕ) (s t : Bytes) → a ≡ b → string_lt s t ≡ true → string_lt (a ∷ s) (b ∷ t) ≡ true
unfolding string_lt
string_lt-same a b s t e h = ground arith

hex_digit-lt : (a b : ℕ) → a < b → b < 16 → hex_digit a < hex_digit b
hex_digit-lt a b h k = ground arith

hex-later :
    (a b : ℕ) (s t : Bytes)
    → a < b
    → b < 256
    → string_lt (hex (a ∷ []) ++ s) (hex (b ∷ []) ++ t) ≡ true
unfolding hex
hex-later a b s t h k = elim (high) [
  | inl less ↦ string_lt-later _ _ _ _ (hex_digit-lt (a / 16) (b / 16) less (omega arith))
  | inr same ↦
      string_lt-same _ _ _ _ (ap hex_digit same)
        (string_lt-later _ _ _ _ (hex_digit-lt (a % 16) (b % 16) (omega arith) (omega arith)))
]
  where
    high : (a / 16 < b / 16) ⊎ (a / 16 ≡ b / 16)
    high = ground arith

hex-same :
    (a b : ℕ) (s t : Bytes)
    → a ≡ b
    → string_lt s t ≡ true
    → string_lt (hex (a ∷ []) ++ s) (hex (b ∷ []) ++ t) ≡ true
unfolding hex
hex-same a b s t e h =
    string_lt-same _ _ _ _ (ap (λ x. hex_digit (x / 16)) e)
      (string_lt-same _ _ _ _ (ap (λ x. hex_digit (x % 16)) e) h)

-- One byte more of two numbers whose bytes agree so far.
next_byte :
    (p q : ℕ) → p ≤ q → p / 256 ≡ q / 256 → (p % 256 < q % 256) ⊎ ((p % 256 ≡ q % 256) × (p ≡ q))
next_byte p q h e = ground arith

-- The six bytes of a time.
abbrev time_bytes : ℕ → List ℕ
time_bytes ms =
    ms / 2 ^ 40 % 256
    ∷ ms / 2 ^ 32 % 256
    ∷ ms / 2 ^ 24 % 256
    ∷ ms / 2 ^ 16 % 256
    ∷ ms / 2 ^ 8 % 256
    ∷ ms % 256
    ∷ []

cons_eq : {x y : ℕ} {s t : List ℕ} → x ≡ y → s ≡ t → ◌≡◌ {A = List ℕ} (x ∷ s) (y ∷ t)
cons_eq p q = ap₂ ◌∷◌ p q

take_time : (ms : ℕ) → take 6 (big_endian64 (ms * 2 ^ 16 % 2 ^ 64)) ≡ time_bytes ms
take_time ms = cons_eq (omega arith) (
    cons_eq (omega arith) (
      cons_eq (omega arith)
        (cons_eq (omega arith) (cons_eq (omega arith) (cons_eq (omega arith) refl)))))

text_of_bytes : List ℕ → (ℕ → ℕ) → Bytes
text_of_bytes time r = uuid_text (
    time
    ++ with_version (r 0) ∷ r 1 ∷ with_variant (r 2) ∷ r 3 ∷ r 4 ∷ r 5 ∷ r 6 ∷ r 7 ∷ r 8 ∷ r 9 ∷ [])

uuid_v7-of : (ms : ℕ) (r : ℕ → ℕ) → uuid_v7 ms r ≡ text_of_bytes (time_bytes ms) r
unfolding uuid_v7 uuid_bytes text_of_bytes
uuid_v7-of ms r = ap (λ time. text_of_bytes time r) (take_time ms)

hex-next :
    (p q : ℕ) (s t : Bytes)
    → p ≤ q
    → p / 256 ≡ q / 256
    → (p ≡ q → string_lt s t ≡ true)
    → string_lt (hex (p % 256 ∷ []) ++ s) (hex (q % 256 ∷ []) ++ t) ≡ true
hex-next p q s t h e rest = elim (next_byte p q h e) [
  | inl less ↦ hex-later (p % 256) (q % 256) s t less (omega arith)
  | inr (same, all) ↦ hex-same (p % 256) (q % 256) s t same (rest all)
]

text_of_bytes-lt :
    (m n : ℕ) (r r' : ℕ → ℕ)
    → m < n
    → n < 2 ^ 48
    → string_lt (text_of_bytes (time_bytes m) r) (text_of_bytes (time_bytes n) r') ≡ true
unfolding text_of_bytes uuid_text hex
text_of_bytes-lt m n r r' h k =
    hex-next (m / 2 ^ 40) (n / 2 ^ 40) _ _ (omega arith) (omega arith) (λ e5.
      hex-next (m / 2 ^ 32) (n / 2 ^ 32) _ _ (omega arith) (omega arith) (λ e4.
        hex-next (m / 2 ^ 24) (n / 2 ^ 24) _ _ (omega arith) (omega arith) (λ e3.
          hex-next (m / 2 ^ 16) (n / 2 ^ 16) _ _ (omega arith) (omega arith) (λ e2.
            string_lt-same b'-' b'-' _ _ refl (
              hex-next (m / 2 ^ 8) (n / 2 ^ 8) _ _ (omega arith) (omega arith) (λ e1.
                hex-next m n _ _ (omega arith) (omega arith) (λ e0. absurd (omega arith))))))))

-- Of two identifiers that are drawn in different milliseconds (48 bits of them), the later one is the
-- greater string, whatever the random bytes.
pub uuid_v7-lt :
    (m n : ℕ) (r r' : ℕ → ℕ) → m < n → n < 2 ^ 48 → string_lt (uuid_v7 m r) (uuid_v7 n r') ≡ true
uuid_v7-lt m n r r' h k = rw (uuid_v7-of m r, uuid_v7-of n r') (text_of_bytes-lt m n r r' h k)
