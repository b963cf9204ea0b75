-- ===== src/Platform/Secure.antt =====
-- Identifiers, codes and password hashes (services/core/internal/platform/secure: uuid.go, secure.go,
-- password.go). A draw of random bytes is a function from their index; argon2, bcrypt, the base64
-- alphabet and `Sscanf` are those of the libraries.
pub mod Uuid
pub mod Passwords
pub mod Codes
mod Tests
use Prim.Native.Nat.{bit_and, bit_or}
use lynk.Base.{
  ℕ, zero, suc, ◌+◌, ◌-◌, ◌*◌, ◌/◌, ◌%◌, ◌^◌, Bytes, codes, Bool, true, false, not, ◌||◌, List, [],
  ◌∷◌, ◌++◌, Option, none, some, ltb, ◌==◌, bytes_eq, has_prefix, length, take, drop, ℤ, pos,
  negsuc, format_int, if◌then◌else◌,
}

-- `hex.Encode`
abbrev pub hex_digit : ℕ → ℕ
hex_digit n = if ltb n 10 then b'0' + n else b'a' + (n - 10)

unfoldable pub hex : List ℕ → Bytes
hex [] = []
hex (b ∷ bs) = hex_digit (b / 16) ∷ hex_digit (b % 16) ∷ hex bs

-- `binary.BigEndian.PutUint64`
abbrev pub big_endian64 : ℕ → List ℕ
big_endian64 x =
    x / 2 ^ 56 % 256
    ∷ x / 2 ^ 48 % 256
    ∷ x / 2 ^ 40 % 256
    ∷ x / 2 ^ 32 % 256
    ∷ x / 2 ^ 24 % 256
    ∷ x / 2 ^ 16 % 256
    ∷ x / 2 ^ 8 % 256
    ∷ x % 256
    ∷ []

abbrev pub with_version : ℕ → ℕ
with_version b = bit_or (bit_and b 0x0f) 0x70

abbrev pub with_variant : ℕ → ℕ
with_variant b = bit_or (bit_and b 0x3f) 0x80

-- The sixteen bytes, from a time in milliseconds and the ten random bytes.
unfoldable pub uuid_bytes : ℕ → (ℕ → ℕ) → List ℕ
uuid_bytes ms random =
    take 6 (big_endian64 (ms * 2 ^ 16 % 2 ^ 64))
    ++ with_version (random 0)
      ∷ random 1
      ∷ with_variant (random 2)
      ∷ random 3
      ∷ random 4
      ∷ random 5
      ∷ random 6
      ∷ random 7
      ∷ random 8
      ∷ random 9
      ∷ []

-- The 8-4-4-4-12 text of sixteen bytes.
unfoldable pub uuid_text : List ℕ → Bytes
unfolding hex
uuid_text u =
    hex (take 4 u)
    ++ (b'-' ∷ hex (take 2 (drop 4 u)))
    ++ (b'-' ∷ hex (take 2 (drop 6 u)))
    ++ (b'-' ∷ hex (take 2 (drop 8 u)))
    ++ (b'-' ∷ hex (drop 10 u))

unfoldable pub uuid_v7 : ℕ → (ℕ → ℕ) → Bytes
unfolding uuid_bytes uuid_text
uuid_v7 ms random = uuid_text (uuid_bytes ms random)

abbrev pub replicate : ℕ → ℕ → Bytes
replicate zero c = []
replicate (suc n) c = c ∷ replicate n c

-- `NumericCode`, on the number that is drawn below `10 ^ digits`; `none` is an error.
unfoldable pub numeric_code : ℕ → ℕ → Option Bytes
unfolding format_int
numeric_code digits drawn =
    if digits == 0
    then none
    else some (replicate (digits - length (format_int drawn)) b'0' ++ format_int drawn)

abbrev cons_part : ℕ → List Bytes → List Bytes
cons_part c [] = (c ∷ []) ∷ []
cons_part c (p ∷ ps) = (c ∷ p) ∷ ps

-- `strings.Split(s, "$")`
unfoldable pub split_dollars : Bytes → List Bytes
split_dollars [] = [] ∷ []
split_dollars (c ∷ s) =
    let rest = split_dollars s in if c == b'$' then [] ∷ rest else cons_part c rest

-- What the password functions call.
pub record Crypto : Type 0 where
  -- password, salt, passes, memory in KiB, lanes and key length
  pub id_key : Bytes → Bytes → ℕ → ℕ → ℕ → ℕ → Bytes
  -- base64.RawStdEncoding
  pub encode : Bytes → Bytes
  pub decode : Bytes → Option Bytes
  -- `Sscanf` for `v=%d`, and for `m=%d,t=%d,p=%d` into two `uint32` and a `uint8`
  pub scan_version : Bytes → Option ℤ
  pub scan_parameters : Bytes → Option (ℕ × ℕ × ℕ)
  -- bcrypt: `none` is an error other than a mismatch
  pub bcrypt_matches : Bytes → Bytes → Option Bool

abbrev pub argon_memory_kib : ℕ
argon_memory_kib = 64 * 1024

abbrev pub argon_passes : ℕ
argon_passes = 3

abbrev pub argon_lanes : ℕ
argon_lanes = 2

abbrev pub argon_key_len : ℕ
argon_key_len = 32

-- argon2.Version
abbrev pub argon_version : ℕ
argon_version = 0x13

module _ (k : Crypto) where
  -- `HashPassword`, for the salt that was drawn.
  unfoldable pub hash_password : Bytes → Bytes → Bytes
  unfolding format_int
  hash_password salt password =
      codes "$argon2id$v="
      ++ (format_int argon_version
          ++ (codes "$m="
              ++ (format_int argon_memory_kib
                  ++ (codes ",t="
                      ++ (format_int argon_passes
                          ++ (codes ",p="
                              ++ (format_int argon_lanes
                                  ++ (b'$'
                                      ∷ (k.encode salt
                                          ++ b'$'
                                            ∷ k.encode (
                                                k.id_key password salt argon_passes argon_memory_kib
                                                  argon_lanes argon_key_len))))))))))

  abbrev against_key : Bytes → Bytes → ℕ × ℕ × ℕ → Option Bytes → Option Bool
  against_key password salt params none = none
  against_key password salt (memory, passes, lanes) (some expected) =
      some (bytes_eq (k.id_key password salt passes memory lanes (length expected)) expected)

  abbrev with_salt : Bytes → Bytes → ℕ × ℕ × ℕ → Option Bytes → Option Bool
  with_salt password hash params none = none
  with_salt password hash params (some salt) = against_key password salt params (k.decode hash)

  abbrev with_parameters : Bytes → Bytes → Bytes → Option (ℕ × ℕ × ℕ) → Option Bool
  with_parameters password salt hash none = none
  with_parameters password salt hash (some params) = with_salt password hash params (k.decode salt)

  abbrev with_version_of : Bytes → Bytes → Bytes → Bytes → Option ℤ → Option Bool
  with_version_of password params salt hash none = none
  with_version_of password params salt hash (some (negsuc n)) = none
  with_version_of password params salt hash (some (pos n)) =
      if n == argon_version
      then with_parameters password salt hash (k.scan_parameters params)
      else none

  -- On the parts; `none` is ErrUnknownHashFormat.
  abbrev with_parts : Bytes → List Bytes → Option Bool
  with_parts password (_ ∷ _ ∷ version ∷ params ∷ salt ∷ hash ∷ []) =
      with_version_of password params salt hash (k.scan_version version)
  with_parts password _ = none

  unfoldable pub verify_argon2id : Bytes → Bytes → Option Bool
  unfolding split_dollars bytes_eq
  verify_argon2id stored password = with_parts password (split_dollars stored)

  unfoldable pub verify_password : Bytes → Bytes → Option Bool
  unfolding verify_argon2id has_prefix
  verify_password stored password =
      if has_prefix (codes "$argon2id$") stored
      then verify_argon2id stored password
      else if has_prefix (codes "$2a$") stored
          || has_prefix (codes "$2b$") stored
          || has_prefix (codes "$2y$") stored
      then k.bcrypt_matches stored password
      else none
