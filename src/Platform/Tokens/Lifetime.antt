-- ===== src/Platform/Tokens/Lifetime.antt =====
-- How long an issued token is accepted.
use lynk.Base.{◌≡◌, Bytes, codes, Option, some}
use lynk.Platform.Tokens.{TokenClaims}

-- The signature library: a token that was signed is read back, with its algorithm.
abbrev pub ReadsBack :
    (TokenClaims → Option Bytes) → (Bytes → Option (Bytes × TokenClaims)) → Type 0
ReadsBack sign parse =
    (c : TokenClaims) (token : Bytes) → sign c ≡ some token → parse token ≡ some (codes "RS256", c)
