-- ===== src/Platform/Tokens.antt =====
-- Access tokens (services/core/internal/platform/jwt/jwt.go; the gateway keeps a copy). Signing and the
-- check of a signature are those of golang-jwt; its checks of the claims, which the options of Verify
-- choose, are written out as it documents them. A date in a token is a number of seconds.
pub mod Lifetime
mod Tests
use lynk.Base.{
  ℕ, ◌+◌, ◌*◌, ◌/◌, ◌^◌, Bytes, codes, Bool, true, false, not, ◌&&◌, ◌||◌, [], Option, none, some,
  bytes_eq, ltb, if◌then◌else◌,
}

pub record TokenClaims : Type 0 where
  pub subject : Bytes
  pub issuer : Bytes
  pub id : Bytes
  pub issued_at : ℕ
  pub expires_at : Option ℕ
  pub not_before : ℕ
  pub role : Bytes
  pub token_type : Bytes

-- `jwtlib.NewNumericDate`
abbrev pub numeric_date : ℕ → ℕ
numeric_date t = t / 10 ^ 9

pub record Signer : Type 0 where
  pub issuer : Bytes
  pub access_token_ttl : ℕ

pub record IssuedToken : Type 0 where
  pub token : Bytes
  pub id : Bytes
  pub expires_at : ℕ

unfoldable pub registered : Signer → ℕ → Bytes → Bytes → Bytes → Bytes → TokenClaims
registered s now id subject role token_type = record {
  subject = subject;
  issuer = s.issuer;
  id = id;
  issued_at = numeric_date now;
  expires_at = some (numeric_date (now + s.access_token_ttl));
  not_before = numeric_date now;
  role = role;
  token_type = token_type;
}

abbrev issued : Bytes → ℕ → Option Bytes → Option IssuedToken
issued id expires_at none = none
issued id expires_at (some token) =
    some (record { token = token; id = id; expires_at = expires_at })

-- IssueAccessToken, under the id that was drawn.
unfoldable pub issue_access_token :
    (TokenClaims → Option Bytes) → Signer → ℕ → Bytes → Bytes → Bytes → Bytes → Option IssuedToken
unfolding registered
issue_access_token sign s now id subject role token_type =
    issued id (now + s.access_token_ttl) (sign (registered s now id subject role token_type))

-- WithExpirationRequired, and the expiry itself.
abbrev pub is_alive : ℕ → Option ℕ → Bool
is_alive now none = false
is_alive now (some t) = ltb now (t * 10 ^ 9)

-- A token whose signature is right is its algorithm and its claims. WithIssuer with an empty text
-- checks nothing.
abbrev pub accepted : Bytes → ℕ → Option (Bytes × TokenClaims) → Option TokenClaims
accepted issuer now none = none
accepted issuer now (some (alg, c)) =
    if bytes_eq alg (codes "RS256")
      && (bytes_eq issuer [] || bytes_eq c.issuer issuer)
      && is_alive now c.expires_at
      && not (ltb now (c.not_before * 10 ^ 9))
    then some c
    else none

-- Verifier.Verify
unfoldable pub verify :
    (Bytes → Option (Bytes × TokenClaims)) → Bytes → ℕ → Bytes → Option TokenClaims
unfolding bytes_eq
verify parse issuer now token = accepted issuer now (parse token)
