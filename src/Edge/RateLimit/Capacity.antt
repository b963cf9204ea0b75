-- ===== src/Edge/RateLimit/Capacity.antt =====
-- The limit of one gateway process (`Global` of edge/ratelimit.go), for requests one after another.
use lynk.Base.{
  ℕ, zero, suc, ◌/◌, ◌^◌, ◌≡◌, ◌≢◌, refl, codes, some, arith, ltb, not, Bool-cases, inl, inr,
  if◌then◌else◌,
}
use lynk.Effects.{World, ok, get_now, get_db, put_db}
use lynk.Edge.Http.{Gate, Request, Handler, put}
use lynk.Edge.RateLimit.{claim, global, too_many}

-- After `n` requests of one second.
pub claims : ℕ → ℕ → Gate → Gate
claims second zero g = g
claims second (suc n) g = claim second (claims second n g)

claims-window : (second n : ℕ) (g : Gate) → (claims second (suc n) g).global_window ≡ second
unfolding claims claim
claims-window second n g = ground arith

pub claims-count :
    (second n : ℕ) (g : Gate)
    → g.global_window ≢ second
    → (claims second (suc n) g).global_count ≡ suc n
unfolding claims claim
claims-count second zero g h = ground arith
claims-count second (suc n) g h =
    ground (arith, claims-count second n g h, claims-window second n g)

-- What a refused request is answered.
pub refused : Gate → Gate
refused g = record g {
  response = record g.response {
    status = some 429;
    headers = put (codes "Retry-After") (codes "1") g.response.headers;
    body = codes "server capacity exceeded";
  };
}

over : (per_second n : ℕ) → ltb per_second (suc n) ≡ not (ltb n per_second)
over per_second n = ground arith

-- Of the requests that arrive in one second, exactly the first ones pass, as many as the capacity
-- is: the request after `n` others of its second goes on to the next handler if `n` is below the
-- capacity, and otherwise is answered 429 and goes no further. (No request of that second had come
-- before those `n`.)
pub global-claims :
    (per_second : ℕ) (next : Handler) (r : Request) (w : World Gate) (n : ℕ)
    → w.db.global_window ≢ w.now / 10 ^ 9
    → let second = w.now / 10 ^ 9 in
      let g = claims second (suc n) w.db in
      global per_second next r (record w { db = claims second n w.db }) ≡ (
        if ltb n per_second
        then next r (record w { db = g })
        else (ok tt, record w { db = refused g }))
unfolding global too_many get_now get_db put_db claims refused
global-claims per_second next r w n h = elim (Bool-cases (ltb n per_second)) [
  | inl b ↦ rw (count, over per_second n, b) refl
  | inr b ↦ rw (count, over per_second n, b) refl
]
  where
    count : (claim (w.now / 10 ^ 9) (claims (w.now / 10 ^ 9) n w.db)).global_count ≡ suc n
    count = claims-count (w.now / 10 ^ 9) n w.db h
