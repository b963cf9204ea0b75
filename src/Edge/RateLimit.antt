-- ===== src/Edge/RateLimit.antt =====
-- The three levels of rate limits (services/gateway/internal/edge/ratelimit.go). Redis and the
-- gateway read the same clock.
pub mod Window
pub mod Capacity
pub mod Endpoints
mod Tests
use lynk.Base.{
  ℕ, ◌+◌, ◌-◌, ◌*◌, ◌/◌, ◌%◌, ◌^◌, Bytes, codes, Bool, true, false, ◌&&◌, List, [], ◌∷◌, ◌++◌,
  Option, none, some, not, ltb, leb, ◌==◌, has_suffix, trim_space, format_int, if◌then◌else◌,
}
use lynk.Effects.{
  World, App, Result, ok, err, pure, get_now, get_db, put_db, attempt, handle, minutes, ◌>>=◌, ◌>>◌,
}
use lynk.Effects.Redis.{Store, read, incr, expire, count}
use lynk.Edge.Doubles.{quotient, weighted}
use lynk.Edge.Http.{
  Request, Gate, Act, Handler, Middleware, Headers, header, set_header, http_error, respond,
}

-- Nanoseconds in a millisecond.
abbrev pub millis : ℕ
millis = 10 ^ 6

abbrev pub or_zero : Option ℕ → ℕ
or_zero none = 0
or_zero (some n) = n

-- `INCR KEYS[1]`, and `PEXPIRE` when that made it 1.
unfoldable pub hit : ℕ → Bytes → ℕ → Store → Store
hit now key window s =
    let t = incr now s key in
    if or_zero (count (read now t key)) == 1 then expire now t key (window * 2 * millis) else t

-- The Lua script: the weighted total, in doubles, and the store after it.
unfoldable pub sliding_window : ℕ → Bytes → Bytes → ℕ → ℕ → Store → ℕ × Store
unfolding hit
sliding_window now curr_key prev_key window elapsed s =
    let t = hit now curr_key window s in
    let curr = or_zero (count (read now t curr_key)) in
    let prev = or_zero (count (read now t prev_key)) in
    (weighted prev (quotient (window - elapsed) window) curr, t)

unfoldable pub window_key : Bytes → ℕ → Bytes
window_key key n = codes "rl:" ++ key ++ codes ":" ++ format_int n

-- The clock reads more than one window after 1970, so that the number of the one before is not
-- negative.
unfoldable pub check : Bytes → ℕ → ℕ → World Gate → Bool × World Gate
unfolding sliding_window window_key
check key limit window w =
    let now_ms = w.now / millis in
    let n = now_ms / window in
    let r =
      sliding_window w.now (window_key key n) (window_key key (n - 1)) window (now_ms % window)
        w.redis in
    (leb r.0 limit, record w { redis = r.1 })

-- The window is given in milliseconds.
unfoldable pub allow : Bytes → ℕ → ℕ → App Gate Bool
unfolding check
allow key limit window = handle attempt λ r w. elim r [
  | err e ↦ (ok true, w)
  | ok _ ↦ let c = check key limit window w in (ok c.0, c.1)
]

abbrev pub minute_ms : ℕ
minute_ms = 60000

too_many : Bytes → Bytes → Act
too_many retry_after text = do set_header (codes "Retry-After") retry_after; http_error 429 text

-- One second of the fixed window: the counter starts again when the second has changed.
unfoldable pub claim : ℕ → Gate → Gate
claim second g =
    let fresh =
      if g.global_window == second
      then g
      else record g { global_window = second; global_count = 0 } in
    record fresh { global_count = fresh.global_count + 1 }

unfoldable pub global : ℕ → Middleware
unfolding claim too_many
global per_second next r = do
  now ← get_now
  g ← get_db
  let claimed = claim (now / 10 ^ 9) g
  put_db claimed
  if ltb per_second claimed.global_count
      then too_many (codes "1") (codes "server capacity exceeded")
      else next r

-- Up to the first comma, all of it if there is none.
unfoldable pub before_comma : Bytes → Bytes
before_comma [] = []
before_comma (c ∷ s) = let rest = before_comma s in if c == b',' then [] else c ∷ rest

is_blank : Bytes → Bool
is_blank [] = true
is_blank (c ∷ s) = false

-- `split` is net.SplitHostPort, the host of an address or an error.
unfoldable pub client_ip : (Bytes → Option Bytes) → Request → Bytes
unfolding before_comma is_blank
client_ip split r =
    let fwd = header (codes "X-Forwarded-For") r.headers in
    if not (is_blank fwd)
    then trim_space (before_comma fwd)
    else elim (split r.remote_addr) [ none ↦ r.remote_addr | some host ↦ host ]

-- The first suffix that matches, in the order in which the map is walked.
unfoldable pub matching : List (Bytes × ℕ) → Bytes → Option (Bytes × ℕ)
matching [] path = none
matching (e ∷ es) path = let rest = matching es path in if has_suffix e.0 path then some e else rest

module _ (split : Bytes → Option Bytes) where
  unfoldable pub per_ip : ℕ → Middleware
  unfolding allow too_many
  per_ip per_minute next r = do
    may ← allow (codes "ip:" ++ client_ip split r) per_minute minute_ms
    if may then next r else too_many (codes "60") (codes "rate limit exceeded")

  unfoldable pub limited : Handler → Request → Option (Bytes × ℕ) → Act
  unfolding allow too_many
  limited next r none = next r
  limited next r (some e) = do
    may ← allow (codes "ep:" ++ e.0 ++ codes ":" ++ client_ip split r) e.1 minute_ms
    if may then next r else too_many (codes "60") (codes "endpoint rate limit exceeded")

  unfoldable pub per_endpoint : List (Bytes × ℕ) → Middleware
  unfolding limited matching
  per_endpoint limits next r = limited next r (matching limits r.path)

-- server.go
abbrev pub endpoint_limits : List (Bytes × ℕ)
endpoint_limits =
    (codes "Login", 10)
    ∷ (codes "Register", 20)
    ∷ (codes "RequestPasswordReset", 10)
    ∷ (codes "ResetPassword", 10)
    ∷ (codes "RequestEmailVerification", 10)
    ∷ (codes "VerifyEmail", 10)
    ∷ (codes "ValidateAPIKey", 120)
    ∷ []
