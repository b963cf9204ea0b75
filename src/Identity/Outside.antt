-- ===== src/Identity/Outside.antt =====
-- What modules/identity takes from code that is not this repository's or that yields unpredictable
-- values: the address parser and case tables of the standard library, hashes, random texts, pgx.
use lynk.Base.{ℕ, Bytes, Bool, Option, none, some, trim_space, bytes_eq, if◌then◌else◌}
use lynk.Effects.{Result, ok, err, invalid_email}

pub record Outside : Type 0 where
  -- SHA-256 in hexadecimal (platform/secure/hash.go)
  pub hash_token : Bytes → Bytes
  -- argon2id with the salt of a draw (platform/secure/password.go)
  pub hash_password : ℕ → Bytes → Bytes
  -- `none` is an error
  pub verify_password : Bytes → Bytes → Option Bool
  -- net/mail's ParseAddress, the address part
  pub parse_address : Bytes → Option Bytes
  pub to_lower : Bytes → Bytes
  -- pgtype.UUID's Scan, printed again in the canonical form
  pub scan_uuid : Bytes → Option Bytes
  -- the UUIDv7, the opaque token, the token id and the six-digit code of a draw
  pub uuid : ℕ → ℕ → Bytes
  pub hex_token : ℕ → Bytes
  pub token : ℕ → Bytes
  pub code : ℕ → Bytes
  -- the signed access token for a user, a role, a token id and an expiry
  pub sign : Bytes → Bytes → Bytes → ℕ → Option Bytes

module _ (o : Outside) where
  accept : Bytes → Option Bytes → Result Bytes
  accept trimmed none = err invalid_email
  accept trimmed (some address) = if bytes_eq address trimmed then ok trimmed else err invalid_email

  -- vo.NewEmail
  unfoldable pub new_email : Bytes → Result Bytes
  unfolding accept
  new_email raw =
      let trimmed = trim_space (o.to_lower raw) in accept trimmed (o.parse_address trimmed)
