-- ===== src/Edge/Chain.antt =====
-- The edge as a whole (`BuildHandler` of services/gateway/internal/edge/server.go), without the
-- middlewares that leave the request alone and only observe it, time it or encode the response:
-- Recovery, Logger, Gzip, Timeout.
pub mod Callers
use lynk.Base.{ℕ, Bytes, codes, Bool, true, false, List, [], ◌∷◌, Option, none, some}
use lynk.Effects.{World, ok}
use lynk.Edge.Http.{Request, Gate, Act, Handler, Middleware, chain}
use lynk.Edge.RateLimit.{global, per_ip, per_endpoint, endpoint_limits}
use lynk.Edge.Authentication.{Verify, authenticate}
use lynk.Edge.Csrf.{csrf}
use lynk.Edge.Headers.{request_id, body_limit, https_redirect, security_headers, cors}

pub record Config : Type 0 where
  pub is_production : Bool
  pub allowed_origins : List Bytes
  pub max_body_bytes : ℕ
  pub global_per_second : ℕ
  pub per_ip_per_minute : ℕ

-- Random texts of a draw, and net.SplitHostPort.
pub record Library : Type 0 where
  pub uuid : ℕ → ℕ → Bytes
  pub hex_token : ℕ → Bytes
  pub split_host : Bytes → Option Bytes

unfoldable pub build_handler : Config → Library → Option Verify → Handler → Handler
unfolding chain
build_handler cfg lib verifier proxy = chain proxy (
    request_id lib.uuid
    ∷ https_redirect cfg.is_production
    ∷ security_headers lib.hex_token cfg.is_production
    ∷ cors cfg.allowed_origins
    ∷ body_limit cfg.max_body_bytes
    ∷ global cfg.global_per_second
    ∷ per_ip lib.split_host cfg.per_ip_per_minute
    ∷ csrf lib.hex_token cfg.is_production
    ∷ authenticate verifier
    ∷ per_endpoint lib.split_host endpoint_limits
    ∷ [])
