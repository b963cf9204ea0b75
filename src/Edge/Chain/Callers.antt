-- ===== src/Edge/Chain/Callers.antt =====
-- Whose identity the bridge behind the whole chain (edge/server.go) sees.
use lynk.Base.{ℕ, ◌≡◌, ap, fun_ext, Bytes, List, [], ◌∷◌, Option, some, Option-cases, inl, inr}
use lynk.Effects.{World}
use lynk.Edge.Http.{Request, Gate, Handler, values, chain}
use lynk.Edge.RateLimit.{per_endpoint, limited, matching, endpoint_limits, global, per_ip}
use lynk.Edge.Csrf.{csrf}
use lynk.Edge.Headers.{request_id, body_limit, https_redirect, security_headers, cors}
use lynk.Edge.Authentication.{
  Claims, Verify, authenticate, claims_of, header_user_id, header_role, header_token_type,
}
use lynk.Edge.Authentication.Identity.{IsGenuine, anonymous, verified, authenticate-Agree}
use lynk.Edge.Chain.{Config, Library, build_handler}

-- What a request says of its caller: nothing, or the claims of a token that the verifier accepts.
pub data IsTrusted (verifier : Option Verify) (q : Request) : Type 0 where
  nobody :
      values header_user_id q.headers ≡ []
      → values header_role q.headers ≡ []
      → values header_token_type q.headers ≡ []
      → IsTrusted verifier q
  holder :
      (token : Bytes) (c : Claims)
      → claims_of verifier token ≡ some c
      → values header_user_id q.headers ≡ c.subject ∷ []
      → values header_role q.headers ≡ c.role ∷ []
      → values header_token_type q.headers ≡ c.token_type ∷ []
      → IsTrusted verifier q

IsTrusted-IsGenuine :
    {verifier : Option Verify} {r q : Request} {w v : World Gate}
    → IsGenuine verifier r w q v
    → IsTrusted verifier q
IsTrusted-IsGenuine (anonymous a b c d) = nobody a b c
IsTrusted-IsGenuine (verified c known asked a b d e) = holder _ c known a b d

module _ (split : Bytes → Option Bytes) (first second : Handler) where
  per_endpoint-same :
      (limits : List (Bytes × ℕ)) (q : Request)
      → first q ≡ second q
      → per_endpoint split limits first q ≡ per_endpoint split limits second q
  unfolding per_endpoint limited
  per_endpoint-same limits q h = elim (Option-cases (matching limits q.path)) [
    | inl e ↦ rw e h
    | inr (l, e) ↦ rw (e, h)
  ]

-- Through the whole chain of the gateway: what the bridge would do with a request that names a
-- caller other than the holder of a token that the verifier accepts makes no difference. Two bridges
-- that agree on the requests that name nobody, or exactly the subject, the role and the token type
-- of such a token, give the same gateway: the same answer to every request in every state.
pub build_handler-IsTrusted :
    (cfg : Config) (lib : Library) (verifier : Option Verify) (first second : Handler)
    → ((q : Request) → IsTrusted verifier q → first q ≡ second q)
    → build_handler cfg lib verifier first ≡ build_handler cfg lib verifier second
unfolding build_handler chain
build_handler-IsTrusted cfg lib verifier first second h =
    ap
      (λ inner. chain inner (
        request_id lib.uuid
        ∷ https_redirect cfg.is_production
        ∷ security_headers lib.hex_token cfg.is_production
        ∷ cors cfg.allowed_origins
        ∷ body_limit cfg.max_body_bytes
        ∷ global cfg.global_per_second
        ∷ per_ip lib.split_host cfg.per_ip_per_minute
        ∷ csrf lib.hex_token cfg.is_production
        ∷ []))
      same
  where
    same :
        authenticate verifier (per_endpoint lib.split_host endpoint_limits first)
        ≡ authenticate verifier (per_endpoint lib.split_host endpoint_limits second)
    same = fun_ext λ r. fun_ext λ w.
        authenticate-Agree verifier r w (per_endpoint lib.split_host endpoint_limits first)
          (per_endpoint lib.split_host endpoint_limits second)
          (λ q v good.
            ap (λ f. f v)
              (per_endpoint-same lib.split_host first second endpoint_limits q
                (h q (IsTrusted-IsGenuine good))))
