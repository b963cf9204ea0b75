-- ===== src/Edge/Csrf.antt =====
-- The double-submit cookie (services/gateway/internal/edge/csrf.go). `hex_token` is the random token
-- of a draw (platform/secure).
pub mod Admission
mod Tests
use lynk.Base.{
  ℕ, ◌*◌, Bytes, codes, Bool, true, false, not, ◌&&◌, ◌||◌, List, [], ◌∷◌, ◌++◌, Option, none, some,
  bytes_eq, has_prefix, if◌then◌else◌,
}
use lynk.Effects.{World, App, Result, ok, err, pure, draw, handle, ◌>>=◌, ◌>>◌}
use lynk.Edge.Http.{
  Request, Gate, Act, Handler, Middleware, Headers, Cookie, header, cookie, http_error, respond,
}

abbrev pub csrf_cookie_name : Bytes
csrf_cookie_name = codes "XSRF-TOKEN"

-- In the canonical form that `Header.Get` gives to "X-XSRF-TOKEN".
abbrev pub csrf_header_name : Bytes
csrf_header_name = codes "X-Xsrf-Token"

unfoldable pub is_safe_method : Bytes → Bool
unfolding bytes_eq
is_safe_method m =
    bytes_eq m (codes "GET")
    || bytes_eq m (codes "HEAD")
    || bytes_eq m (codes "OPTIONS")
    || bytes_eq m (codes "TRACE")

abbrev pub present : Option Bytes → Bool
present none = false
present (some []) = false
present (some (c ∷ s)) = true

abbrev pub or_blank : Option Bytes → Bytes
or_blank none = []
or_blank (some s) = s

-- A bearer token, of whatever worth.
unfoldable pub has_bearer : Request → Bool
unfolding has_prefix
has_bearer r =
    let authz = header (codes "Authorization") r.headers in
    has_prefix (codes "Bearer ") authz || has_prefix (codes "bearer ") authz

unfoldable pub is_grpc_web : Request → Bool
unfolding has_prefix
is_grpc_web r = has_prefix (codes "application/grpc-web") (header (codes "Content-Type") r.headers)

module _ (hex_token : ℕ → Bytes) (is_production : Bool) where
  abbrev pub csrf_cookie : ℕ → Cookie
  csrf_cookie n = record {
    name = csrf_cookie_name;
    value = hex_token n;
    max_age = 86400;
    http_only = false;
    secure = is_production;
    same_site_strict = true;
  }

  plant : Result ℕ → Act
  plant (err e) = pure tt
  plant (ok n) = respond λ r. record r { cookies = r.cookies ++ csrf_cookie n ∷ [] }

  -- Without entropy no cookie is set.
  unfoldable pub ensure_csrf_cookie : Act
  unfolding plant
  ensure_csrf_cookie = handle draw plant

  unfoldable pub csrf : Middleware
  unfolding ensure_csrf_cookie is_safe_method has_bearer is_grpc_web
  csrf next r =
      if is_safe_method r.method
      then (do ensure_csrf_cookie; next r)
      else if has_bearer r
      then next r
      else if is_grpc_web r
      then next r
      else if not (present (cookie csrf_cookie_name r))
      then http_error 403 (codes "CSRF token missing")
      else if bytes_eq (or_blank (cookie csrf_cookie_name r)) (header csrf_header_name r.headers)
      then (do ensure_csrf_cookie; next r)
      else http_error 403 (codes "CSRF token mismatch")
