-- ===== src/Platform/Tokens/Tests.antt =====
-- A signature that is as small as can be: the token is the list of what the claims say.
use lynk.Base.{
  ℕ, ◌≡◌, Bytes, codes, [], ◌∷◌, Option, none, some, zero, suc, ◌++◌, length, take, drop,
}
use lynk.Effects.{minutes}
use lynk.Platform.Tokens.{TokenClaims, Signer}

abbrev signer : Signer
signer = record { issuer = codes "lynk"; access_token_ttl = minutes 15 }

abbrev field : Bytes → Bytes → Bytes
field s rest = length s ∷ (s ++ rest)

abbrev read_field : Bytes → Bytes × Bytes
read_field [] = ([], [])
read_field (n ∷ s) = (take n s, drop n s)

abbrev date : Option ℕ → Bytes → Bytes
date none rest = 0 ∷ 0 ∷ rest
date (some t) rest = 1 ∷ t ∷ rest

abbrev text_of : TokenClaims → Bytes
text_of c =
    c.issued_at
    ∷ c.not_before
    ∷ date c.expires_at
        (field c.subject (field c.issuer (field c.id (field c.role (field c.token_type [])))))

abbrev sign_all : TokenClaims → Option Bytes
sign_all c = some (text_of c)

abbrev read_date : ℕ → ℕ → Option ℕ
read_date zero t = none
read_date (suc n) t = some t

abbrev parse_all : Bytes → Option (Bytes × TokenClaims)
parse_all (at ∷ from ∷ tag ∷ t ∷ s) =
    let subject = read_field s in
    let issuer = read_field subject.1 in
    let id = read_field issuer.1 in
    let role = read_field id.1 in
    let token_type = read_field role.1 in
    some (
      codes "RS256",
      record {
        subject = subject.0;
        issuer = issuer.0;
        id = id.0;
        issued_at = at;
        expires_at = read_date tag t;
        not_before = from;
        role = role.0;
        token_type = token_type.0;
      },
    )
parse_all _ = none

inside : {a b : Bytes} → some a ≡ some b → a ≡ b
inside h = cc
