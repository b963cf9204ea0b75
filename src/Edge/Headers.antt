-- ===== src/Edge/Headers.antt =====
-- The middlewares that only look at and write headers: RequestID and BodyLimit of
-- services/gateway/internal/edge/middleware.go, HTTPSRedirect of redirect.go, SecurityHeaders and
-- CORS of security.go. Random values are functions of a draw.
pub mod Origins
mod Tests
use lynk.Base.{
  ℕ, Bytes, codes, Bool, true, false, not, ◌&&◌, ◌||◌, List, [], ◌∷◌, ◌++◌, Option, none, some, any,
  bytes_eq, if◌then◌else◌,
}
use lynk.Effects.{
  World, App, Result, ok, err, pure, get_now, get_db, put_db, draw, handle, ◌>>=◌, ◌>>◌,
}
use lynk.Edge.Http.{
  Request, Gate, Act, Handler, Middleware, Headers, header, put, add, set_header, respond,
}

abbrev pub is_blank : Bytes → Bool
is_blank [] = true
is_blank (c ∷ s) = false

module _ (uuid : ℕ → ℕ → Bytes) where
  abbrev pub minted : ℕ → Result ℕ → Bytes
  minted now (ok n) = uuid now n
  minted now (err e) = codes "unavailable"

  abbrev pub tagged : Bytes → Middleware
  tagged id next r = do set_header (codes "X-Request-Id") id; next (record r { request_id = id })

  -- The id that came in, or a new one.
  unfoldable pub request_id : Middleware
  request_id next r =
      let id = header (codes "X-Request-Id") r.headers in
      if not (is_blank id)
      then tagged id next r
      else (do now ← get_now; handle draw (λ fresh. tagged (minted now fresh) next r))

-- `http.MaxBytesReader`
unfoldable pub body_limit : ℕ → Middleware
body_limit max_bytes next r = next (record r { body_limit = some max_bytes })

unfoldable pub is_secure_request : Request → Bool
unfolding bytes_eq
is_secure_request r =
    if r.tls then true else bytes_eq (header (codes "X-Forwarded-Proto") r.headers) (codes "https")

unfoldable pub https_redirect : Bool → Middleware
unfolding is_secure_request
https_redirect enabled next r = if not enabled || is_secure_request r then next r else (do
  let keeps_method = not (bytes_eq r.method (codes "GET")) && not (bytes_eq r.method (codes "HEAD"))
  set_header (codes "Location") (codes "https://" ++ r.host ++ r.uri)
  respond λ p. record p { status = some (if keeps_method then 308 else 301) })

pub strict_policy : Bytes → Bytes
strict_policy nonce =
    codes "default-src 'self'; script-src 'self' 'nonce-"
    ++ nonce
    ++ codes "'; style-src 'self' 'nonce-"
    ++ nonce
    ++ codes
        "' 'unsafe-inline'; img-src 'self' data: https:; font-src 'self' data:; connect-src 'self'; frame-ancestors 'none'; base-uri 'self'; form-action 'self'"

pub lax_policy : Bytes → Bytes
lax_policy nonce =
    codes
      "default-src 'self' 'unsafe-eval'; script-src 'self' 'unsafe-inline' 'unsafe-eval' 'nonce-"
    ++ nonce
    ++ codes "'; style-src 'self' 'unsafe-inline'; connect-src 'self' ws: wss:"

module _ (hex_token : ℕ → Bytes) (is_production : Bool) where
  -- Without entropy there is no policy header.
  with_nonce : Handler → Request → Result ℕ → Act
  with_nonce next r (err e) = next r
  with_nonce next r (ok n) = do
    let policy = if is_production then strict_policy (hex_token n) else lax_policy (hex_token n)
    set_header (codes "Content-Security-Policy") policy
    next (record r { nonce = hex_token n })

  unfoldable pub security_headers : Middleware
  unfolding with_nonce
  security_headers next r = do
    set_header (codes "X-Content-Type-Options") (codes "nosniff")
    set_header (codes "X-Frame-Options") (codes "DENY")
    set_header (codes "X-Xss-Protection") (codes "1; mode=block")
    set_header (codes "Referrer-Policy") (codes "strict-origin-when-cross-origin")
    set_header (codes "Permissions-Policy") (codes "geolocation=(), microphone=(), camera=()")
    if is_production
        then set_header (codes "Strict-Transport-Security")
            (codes "max-age=31536000; includeSubDomains")
        else pure tt
    handle draw (with_nonce next r)

module _ (allowed_origins : List Bytes) where
  -- The headers for an origin on the list.
  abbrev pub reflect : Bytes → Headers → Headers
  reflect origin h = add (codes "Vary") (codes "Origin") (
      put (codes "Access-Control-Allow-Headers")
        (codes
          "Content-Type, Authorization, X-Request-Id, X-Grpc-Web, X-User-Agent, Connect-Protocol-Version, X-XSRF-Token")
        (put (codes "Access-Control-Allow-Methods") (codes "GET, POST, OPTIONS") (
          put (codes "Access-Control-Allow-Credentials") (codes "true")
            (put (codes "Access-Control-Allow-Origin") origin h))))

  unfoldable pub is_allowed : Bytes → Bool
  unfolding bytes_eq
  is_allowed origin = not (is_blank origin) && any (bytes_eq origin) allowed_origins

  unfoldable pub mark_origin : Bytes → Act
  unfolding is_allowed
  mark_origin origin =
      if is_allowed origin
      then respond (λ p. record p { headers = reflect origin p.headers })
      else pure tt

  unfoldable pub cors : Middleware
  unfolding mark_origin
  cors next r = do
    mark_origin (header (codes "Origin") r.headers)
    if bytes_eq r.method (codes "OPTIONS")
        then respond (λ p. record p { status = some 204 })
        else next r
