-- ===== src/Edge/Authentication/Identity.antt =====
-- Whose identity the handlers behind the authenticator (edge/auth.go) see.
use lynk.Base.{
  ◌≡◌, refl, ap, codes, Bool, true, false, [], ◌∷◌, Option, some, bytes_eq, Option-cases, inl, inr,
  if◌then◌else◌,
}
use lynk.Effects.{World, Result, ok, err, get_db, put_db, continue}
use lynk.Edge.Http.{Request, Gate, Handler, Principal, values, first_or_blank, http_error}
use lynk.Edge.Http.Values.{values-delete, values-put}
use lynk.Edge.Authentication.{
  Claims, Verify, header_user_id, header_role, header_token_type, strip_identity_headers,
  inject_identity_headers, bearer_token, after_scheme, consult, principal_of, authenticated, admit,
  with_claims, claims_of, authenticate,
}

-- A request as the handlers behind may see it, when `r` came in: nothing is said about the caller,
-- or what is said are the claims of a bearer token that was verified and is not revoked.
pub data IsGenuine (verifier : Option Verify) (r : Request) (w : World Gate) (q : Request)
    (v : World Gate) : Type 0 where
  anonymous :
      values header_user_id q.headers ≡ []
      → values header_role q.headers ≡ []
      → values header_token_type q.headers ≡ []
      → q.principal ≡ r.principal
      → IsGenuine verifier r w q v
  verified :
      (c : Claims)
      → claims_of verifier (bearer_token r) ≡ some c
      → consult c.id w ≡ (ok false, v)
      → values header_user_id q.headers ≡ c.subject ∷ []
      → values header_role q.headers ≡ c.role ∷ []
      → values header_token_type q.headers ≡ c.token_type ∷ []
      → q.principal ≡ some (principal_of c)
      → IsGenuine verifier r w q v

stripped-values :
    (r : Request)
    → (values header_user_id (strip_identity_headers r).headers ≡ [])
      × (values header_role (strip_identity_headers r).headers ≡ [])
      × (values header_token_type (strip_identity_headers r).headers ≡ [])
unfolding strip_identity_headers bytes_eq
stripped-values r = (simp (values-delete), simp (values-delete), simp (values-delete))

stripped-authorization :
    (r : Request)
    → values (codes "Authorization") (strip_identity_headers r).headers
      ≡ values (codes "Authorization") r.headers
unfolding strip_identity_headers bytes_eq
stripped-authorization r = simp (values-delete)

stripped-bearer : (r : Request) → bearer_token (strip_identity_headers r) ≡ bearer_token r
unfolding bearer_token
stripped-bearer r = ap (λ vs. after_scheme (first_or_blank vs)) (stripped-authorization r)

injected-values :
    (p : Principal) (r : Request)
    → (values header_user_id (inject_identity_headers p r).headers ≡ p.user_id ∷ [])
      × (values header_role (inject_identity_headers p r).headers ≡ p.role ∷ [])
      × (values header_token_type (inject_identity_headers p r).headers ≡ p.token_type ∷ [])
unfolding inject_identity_headers bytes_eq
injected-values p r = (simp (values-put), simp (values-put), simp (values-put))

module _ (verifier : Option Verify) (r : Request) (w : World Gate) (first second : Handler) where
  -- The two handlers agree on every request that they may rightly see.
  abbrev pub Agree : Type 0
  Agree = (q : Request) (v : World Gate) → IsGenuine verifier r w q v → first q v ≡ second q v

  agree_anonymous : Agree → first (strip_identity_headers r) w ≡ second (strip_identity_headers r) w
  unfolding strip_identity_headers
  agree_anonymous h =
      let (a, b, c) = stripped-values r in h (strip_identity_headers r) w (anonymous a b c refl)

  agree_consulted :
      (c : Claims) (p : Result Bool × World Gate)
      → claims_of verifier (bearer_token r) ≡ some c
      → consult c.id w ≡ p
      → Agree
      → let q = authenticated c (strip_identity_headers r) in
        continue p.0 (λ gone. if gone then http_error 401 (codes "token revoked") else first q) p.1
        ≡ continue p.0
            (λ gone. if gone then http_error 401 (codes "token revoked") else second q)
            p.1
  agree_consulted c (err e, v) known asked h = refl
  agree_consulted c (ok true, v) known asked h = refl
  agree_consulted c (ok false, v) known asked h =
      let (a, b, d) = injected-values (principal_of c) (strip_identity_headers r) in
      h (authenticated c (strip_identity_headers r)) v (verified c known asked a b d refl)

  agree_authenticated :
      (c : Claims)
      → claims_of verifier (bearer_token r) ≡ some c
      → Agree
      → admit c first (strip_identity_headers r) w ≡ admit c second (strip_identity_headers r) w
  unfolding admit
  agree_authenticated c known h = agree_consulted c (consult c.id w) known refl h

  -- The handler behind the authenticator sees no forged identity: two handlers that agree on the
  -- requests without any identity headers, and on those whose identity headers are each exactly one
  -- value, the one in the claims of the verified and unrevoked bearer token that the request came
  -- with, answer every request alike behind it, whatever identity headers the client sent.
  pub authenticate-Agree :
      Agree → authenticate verifier first r w ≡ authenticate verifier second r w
  unfolding authenticate with_claims
  authenticate-Agree h =
      rw (stripped-bearer r) (elim (Option-cases (claims_of verifier (bearer_token r))) [
        | inl missing ↦ rw missing (agree_anonymous h)
        | inr (c, known) ↦ rw known (agree_authenticated c known h)
      ])

-- A revoked token ends the request: if the verified bearer token of a request is revoked, the answer
-- is 401, whatever handler stands behind.
pub revoked-authenticate :
    (verifier : Option Verify) (r : Request) (w v : World Gate) (next : Handler) (c : Claims)
    → claims_of verifier (bearer_token r) ≡ some c
    → consult c.id w ≡ (ok true, v)
    → authenticate verifier next r w ≡ (
      ok tt,
      record v {
        db = record v.db {
          response = record v.db.response { status = some 401; body = codes "token revoked" };
        };
      },
    )
unfolding authenticate with_claims admit get_db put_db
revoked-authenticate verifier r w v next c known gone = rw (stripped-bearer r, known, gone)
