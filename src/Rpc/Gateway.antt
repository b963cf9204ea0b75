-- ===== src/Rpc/Gateway.antt =====
-- For whom the core service acts when a call comes through the gateway: edge/server.go, edge/auth.go
-- and edge/proxy.go of the gateway, then platform/auth/interceptor.go of the core service.
use lynk.Base.{
  ◌≡◌, refl, ◌∙◌, Bytes, codes, [], ◌∷◌, true, Option, none, some, bytes_eq, Option-cases, inl, inr,
}
use lynk.Authz.{Principal}
use lynk.Edge.Http.{Request, Act, Handler, Headers, values}
use lynk.Edge.Authentication.{
  Claims, Verify, claims_of, header_user_id, header_role, header_token_type,
}
use lynk.Edge.Proxy.{direct, forwardable_headers}
use lynk.Edge.Proxy.Forwarding.{is_listed, direct-values}
use lynk.Edge.Chain.{Config, Library, build_handler}
use lynk.Edge.Chain.Callers.{IsTrusted, nobody, holder, build_handler-IsTrusted}
use lynk.Rpc.{principal_from_metadata, principal_of_id}

-- How the wrapper of gRPC-Web hands the headers of a request on as metadata: its keys are the names
-- in lower case.
pub record HandsOn (hand_on : Headers → Headers) : Type 0 where
  pub user_id : (h : Headers) → values (codes "x-user-id") (hand_on h) ≡ values header_user_id h
  pub role : (h : Headers) → values (codes "x-role") (hand_on h) ≡ values header_role h
  pub token_type :
      (h : Headers) → values (codes "x-token-type") (hand_on h) ≡ values header_token_type h

abbrev pub caller_of : Claims → Principal
caller_of c = record { user_id = c.subject; role = c.role; token_type = c.token_type }

module _ (hand_on : Headers → Headers) (unrouted : Act)
    (core : Option Principal → Bytes → Act) where
  -- `unrouted` answers Unimplemented. Otherwise the call goes to the backend of its route, with the principal that the core service takes from
  -- the metadata it is sent.
  abbrev pub on_route : Bytes → Option (Bytes × Headers) → Act
  on_route path none = unrouted
  on_route path (some (conn, sent)) = core (principal_from_metadata sent) path

  abbrev pub bridge : Handler
  bridge q = on_route q.path (direct (hand_on q.headers) q.path)

-- Whom the core service may be told of: nobody, or the holder of an accepted token.
pub data IsKnown (verifier : Option Verify) : Option Principal → Type 0 where
  anonymous : IsKnown verifier none
  known :
      (token : Bytes) (c : Claims)
      → claims_of verifier token ≡ some c
      → IsKnown verifier (some (caller_of c))

principal_of_values :
    (md : Headers) (c : Claims)
    → values (codes "x-user-id") md ≡ c.subject ∷ []
    → values (codes "x-role") md ≡ c.role ∷ []
    → values (codes "x-token-type") md ≡ c.token_type ∷ []
    → principal_from_metadata md ≡ principal_of_id c.subject md
unfolding principal_from_metadata
principal_of_values md c a b d = rw a

IsKnown-principal_of_id :
    (verifier : Option Verify) (token : Bytes) (c : Claims) (md : Headers) (id : Bytes)
    → claims_of verifier token ≡ some c
    → c.subject ≡ id
    → values (codes "x-role") md ≡ c.role ∷ []
    → values (codes "x-token-type") md ≡ c.token_type ∷ []
    → IsKnown verifier (principal_of_id id md)
unfolding principal_of_id
IsKnown-principal_of_id verifier token c md [] accepted same b d = anonymous
IsKnown-principal_of_id verifier token c md (x ∷ id) accepted same b d =
    rw (b, d, ← same) (known token c accepted)

module _ (verifier : Option Verify) (hand_on : Headers → Headers) (h : HandsOn hand_on) where
  sent-values :
      (q : Request) (conn key : Bytes) (sent : Headers)
      → direct (hand_on q.headers) q.path ≡ some (conn, sent)
      → is_listed forwardable_headers key ≡ true
      → values key sent ≡ values key (hand_on q.headers)
  sent-values q conn key sent went listed =
      direct-values (hand_on q.headers) sent q.path conn key went ∙ rw listed

  IsKnown-sent :
      (q : Request) (conn : Bytes) (sent : Headers)
      → direct (hand_on q.headers) q.path ≡ some (conn, sent)
      → IsTrusted verifier q
      → IsKnown verifier (principal_from_metadata sent)
  unfolding bytes_eq principal_from_metadata principal_of_id
  IsKnown-sent q conn sent went (nobody a b d) =
      rw (sent-values q conn (codes "x-user-id") sent went refl, h.user_id q.headers, a) anonymous
  IsKnown-sent q conn sent went (holder token c accepted a b d) =
      rw (sent-values q conn (codes "x-user-id") sent went refl, h.user_id q.headers, a)
        (IsKnown-principal_of_id verifier token c sent c.subject accepted refl
          (sent-values q conn (codes "x-role") sent went refl ∙ h.role q.headers ∙ b)
          (sent-values q conn (codes "x-token-type") sent went refl ∙ h.token_type q.headers ∙ d))

  bridge-same :
      (unrouted : Act) (first second : Option Principal → Bytes → Act)
      → ((p : Option Principal) → IsKnown verifier p → first p ≡ second p)
      → (q : Request) → IsTrusted verifier q
      → bridge hand_on unrouted first q ≡ bridge hand_on unrouted second q
  bridge-same unrouted first second agree q trusted =
      elim (Option-cases (direct (hand_on q.headers) q.path)) [
        | inl none_there ↦ rw none_there
        | inr ((conn, sent), went) ↦
            rw (went, agree (principal_from_metadata sent) (IsKnown-sent q conn sent went trusted))
      ]

  -- End to end: the core service acts for nobody but the holder of a token that the gateway's verifier
  -- accepts, with exactly the subject, the role and the token type of that token, or for an anonymous
  -- caller. Two core services that agree on these callers cannot be told apart behind the gateway,
  -- whatever identity headers a client sends. (The wrapper of gRPC-Web hands the three identity
  -- headers on under their names in lower case.)
  pub build_handler-bridge :
      (cfg : Config) (lib : Library) (unrouted : Act)
      (first second : Option Principal → Bytes → Act)
      → ((p : Option Principal) → IsKnown verifier p → first p ≡ second p)
      → build_handler cfg lib verifier (bridge hand_on unrouted first)
        ≡ build_handler cfg lib verifier (bridge hand_on unrouted second)
  build_handler-bridge cfg lib unrouted first second agree =
      build_handler-IsTrusted cfg lib verifier (bridge hand_on unrouted first)
        (bridge hand_on unrouted second) (bridge-same unrouted first second agree)
