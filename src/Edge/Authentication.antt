-- ===== src/Edge/Authentication.antt =====
-- The one place where a token is verified (services/gateway/internal/edge/auth.go). The verifier of
-- platform/jwt, which hands the token to a library, is a parameter; `none` in its place is the nil
-- of a gateway without a key.
pub mod Identity
mod Tests
use lynk.Base.{
  ℕ, Bytes, codes, Bool, true, false, List, [], ◌∷◌, Option, none, some, ltb, cut_prefix,
  if◌then◌else◌,
}
use lynk.Effects.{World, App, Result, ok, err, pure, attempt, handle, ◌>>=◌, ◌>>◌}
use lynk.Effects.Redis.{read}
use lynk.Edge.Bloom.{in_filter, blacklist_key}
use lynk.Edge.Http.{
  Request, Gate, Act, Handler, Middleware, Headers, Principal, header, delete, put, http_error,
  respond,
}

-- The claims that the gateway reads.
pub record Claims : Type 0 where
  pub id : Bytes
  pub subject : Bytes
  pub role : Bytes
  pub token_type : Bytes

abbrev pub Verify : Type 0
Verify = Bytes → Option Claims

abbrev pub header_user_id : Bytes
header_user_id = codes "X-User-Id"

abbrev pub header_role : Bytes
header_role = codes "X-Role"

abbrev pub header_token_type : Bytes
header_token_type = codes "X-Token-Type"

unfoldable pub strip_identity_headers : Request → Request
unfolding delete
strip_identity_headers r = record r {
  headers = delete header_token_type (delete header_role (delete header_user_id r.headers));
}

unfoldable pub inject_identity_headers : Principal → Request → Request
unfolding put
inject_identity_headers p r = record r {
  headers =
      put header_token_type p.token_type
        (put header_role p.role (put header_user_id p.user_id r.headers));
}

abbrev or_blank : Option Bytes → Bytes
or_blank none = []
or_blank (some s) = s

-- `Bearer ` first, then `bearer `.
unfoldable pub after_scheme : Bytes → Bytes
unfolding cut_prefix
after_scheme h = elim (cut_prefix (codes "Bearer ") h) [
  | some rest ↦ rest
  | none ↦ or_blank (cut_prefix (codes "bearer ") h)
]

unfoldable pub bearer_token : Request → Bytes
unfolding after_scheme
bearer_token r = after_scheme (header (codes "Authorization") r.headers)

-- `IsRevoked` on the gateway's own filter and Redis.
unfoldable pub consult : Bytes → App Gate Bool
consult jti w =
    if in_filter jti w.db.filter
    then handle attempt
        (λ r v. elim r [
          | err e ↦ (ok false, v)
          | ok _ ↦ (
            ok (elim (read v.now v.redis (blacklist_key jti)) [ none ↦ false | some c ↦ true ]),
            v,
          )
        ])
        w
    else (ok false, w)

abbrev pub principal_of : Claims → Principal
principal_of c = record { user_id = c.subject; role = c.role; token_type = c.token_type }

abbrev pub is_blank : Bytes → Bool
is_blank [] = true
is_blank (c ∷ s) = false

-- The request as it goes on for a caller whose token was good.
abbrev pub authenticated : Claims → Request → Request
authenticated c r = record (inject_identity_headers (principal_of c) r) {
  principal = some (principal_of c);
}

unfoldable pub admit : Claims → Middleware
unfolding consult
admit c next r = do
  gone ← consult c.id
  if gone then http_error 401 (codes "token revoked") else next (authenticated c r)

-- On the result of `Verify`.
unfoldable pub with_claims : Option Claims → Middleware
unfolding admit
with_claims none next r = next r
with_claims (some c) next r = admit c next r

abbrev pub claims_of : Option Verify → Bytes → Option Claims
claims_of none token = none
claims_of (some verify) token = if is_blank token then none else verify token

unfoldable pub authenticate : Option Verify → Middleware
unfolding with_claims bearer_token strip_identity_headers
authenticate verifier next r =
    let stripped = strip_identity_headers r in
    with_claims (claims_of verifier (bearer_token stripped)) next stripped
