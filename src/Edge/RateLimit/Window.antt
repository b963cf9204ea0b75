-- ===== src/Edge/RateLimit/Window.antt =====
-- The sliding window (edge/ratelimit.go) against the requests that it counts.
use lynk.Base.{
  ℕ, ◌+◌, ◌-◌, ◌*◌, ◌/◌, ◌%◌, ◌^◌, ◌≤◌, ◌<◌, ◌≡◌, ◌≢◌, refl, sym, ap, subst, ap₂, ◌⊎◌, inl, inr,
  Bytes, codes, Bool, true, false, List, [], ◌∷◌, ◌++◌, Option, none, some, arith, leb, ◌==◌,
  ==_iff, bytes_eq_iff, bytes_eq_refl, format_int, format_int-injective, if◌then◌else◌,
}
use mathlib.Core.List.{append_cancel_left}
use lynk.Effects.{World, calm, attempt, ok}
use lynk.Effects.Redis.{Cell, Store, number, read, incr, expire, count, live}
use lynk.Edge.Doubles.{quotient, weighted}
use lynk.Edge.Doubles.Weighted.{weighted_keeps, weighted-exact}
use lynk.Edge.Http.{Gate}
use lynk.Edge.RateLimit.{millis, or_zero, hit, sliding_window, window_key, check, allow, minute_ms}

abbrev pub minute_ns : ℕ
minute_ns = 60 * 10 ^ 9

-- The number of the minute that a time lies in.
abbrev pub minute_of : ℕ → ℕ
minute_of t = t / millis / minute_ms

-- How many of these requests lie in the minute `k`.
abbrev pub requests_in : ℕ → List ℕ → ℕ
requests_in k [] = 0
requests_in k (t ∷ ts) = requests_in k ts + (if minute_of t == k then 1 else 0)

abbrev counter : ℕ → ℕ → Cell
counter n e = record { value = number n; expires_at = some e }

-- A counter that stands at `n` lives until the minute after its own has passed.
abbrev Tracked : ℕ → ℕ → Option Cell → Type 0
Tracked n k c =
    ((n ≡ 0) × (c ≡ none))
    ⊎ ((e : ℕ) × (c ≡ some (counter n e)) × (0 < n) × ((k + 2) * minute_ns ≤ e))

hit_new :
    (t : ℕ) (key : Bytes) (s : Store)
    → s key ≡ none
    → hit t key minute_ms s key ≡ some (counter 1 (t + 2 * minute_ns))
unfolding hit incr expire read
hit_new t key s h = ground (arith, bytes_eq_refl key)

hit_again :
    (t n e : ℕ) (key : Bytes) (s : Store)
    → s key ≡ some (counter n e)
    → t < e
    → 0 < n
    → hit t key minute_ms s key ≡ some (counter (n + 1) e)
unfolding hit incr expire read
hit_again t n e key s h k p = ground (arith, bytes_eq_refl key)

hit_other : (t : ℕ) (key j : Bytes) (s : Store) → key ≢ j → hit t key minute_ms s j ≡ s j
unfolding hit incr expire read
hit_other t key j s ne = ground (arith, bytes_eq_iff key j)

hit-Tracked :
    (t n : ℕ) (key : Bytes) (s : Store)
    → Tracked n (minute_of t) (s key)
    → Tracked (n + 1) (minute_of t) (hit t key minute_ms s key)
hit-Tracked t n key s (inl (z, h)) =
    inr (t + 2 * minute_ns, rw z (hit_new t key s h), omega arith, omega arith)
hit-Tracked t n key s (inr (e, h, p, l)) =
    inr (e, hit_again t n e key s h (omega (arith, l)) p, omega arith, l)

count-Tracked :
    (t n k : ℕ) (c : Option Cell)
    → Tracked n k c
    → t < (k + 2) * minute_ns
    → or_zero (count (live t c)) ≡ n
count-Tracked t n k c (inl (z, h)) l = rw (h, z)
count-Tracked t n k c (inr (e, h, p, m)) l = rw h (ground arith)

window_key-injective : (key : Bytes) (i j : ℕ) → window_key key i ≡ window_key key j → i ≡ j
unfolding window_key
window_key-injective key i j e =
    format_int-injective i j
      (append_cancel_left (codes "rl:" ++ key ++ codes ":") (format_int i) (format_int j) e)

-- The counters of `key` are those of these requests.
pub Tracks : Bytes → List ℕ → Store → Type 0
Tracks key ts s = (k : ℕ) → Tracked (requests_in k ts) k (s (window_key key k))

hit-Tracks :
    (key : Bytes) (ts : List ℕ) (s : Store) (t : ℕ)
    → Tracks key ts s
    → Tracks key (t ∷ ts) (hit t (window_key key (minute_of t)) minute_ms s)
unfolding Tracks
hit-Tracks key ts s t h k = go (minute_of t == k) refl
  where
    go :
        (b : Bool)
        → (minute_of t == k) ≡ b
        → Tracked
            (requests_in k ts + (if b then 1 else 0))
            k
            (hit t (window_key key (minute_of t)) minute_ms s (window_key key k))
    go true same =
        subst
          (λ k.
            Tracked (requests_in k ts + 1) k
              (hit t (window_key key (minute_of t)) minute_ms s (window_key key k)))
          ((==_iff (minute_of t) k).0 same)
          (hit-Tracked t (requests_in (minute_of t) ts) (window_key key (minute_of t)) s
            (h (minute_of t)))
    go false other =
        subst
          (λ n. Tracked n k (hit t (window_key key (minute_of t)) minute_ms s (window_key key k)))
          (omega arith)
          (subst (λ c. Tracked (requests_in k ts) k c)
            (sym (
              hit_other t (window_key key (minute_of t)) (window_key key k) s (λ e.
                cc ((==_iff (minute_of t) k).1 (window_key-injective key (minute_of t) k e)))))
            (h k))

-- The milliseconds that are left of the minute of `t`.
abbrev pub left : ℕ → ℕ
left t = minute_ms - t / millis % minute_ms

-- The estimate for a request at `t`: those of its own minute so far, and of the minute before the
-- share that the sixty seconds before `t` still cover.
abbrev pub estimate : ℕ → List ℕ → ℕ
estimate t ts = requests_in (minute_of t - 1) ts * left t / minute_ms + requests_in (minute_of t) ts

-- The total that the script makes of the same counts.
abbrev script_total : ℕ → List ℕ → ℕ
script_total t ts =
    weighted (requests_in (minute_of t - 1) ts) (quotient (left t) minute_ms)
      (requests_in (minute_of t) ts)

module _ (key : Bytes) (limit : ℕ) where
  -- The requests at these times, the last one first.
  pub serve : List ℕ → World Gate → World Gate
  serve [] w = w
  serve (t ∷ ts) w = (allow key limit minute_ms (record (calm (serve ts w)) { now = t })).1

  pub verdict : ℕ → World Gate → Bool
  verdict t w = (check key limit minute_ms (record (calm w) { now = t })).0

  serve-redis :
      (t : ℕ) (ts : List ℕ) (w : World Gate)
      → (serve (t ∷ ts) w).redis ≡ hit t (window_key key (minute_of t)) minute_ms (serve ts w).redis
  unfolding serve allow attempt check sliding_window
  serve-redis t ts w = refl

  serve-Tracks :
      (ts : List ℕ) (w : World Gate) → Tracks key [] w.redis → Tracks key ts (serve ts w).redis
  serve-Tracks [] w h = unfold serve in h
  serve-Tracks (t ∷ ts) w h =
      subst (Tracks key (t ∷ ts)) (sym (serve-redis t ts w))
        (hit-Tracks key ts (serve ts w).redis t (serve-Tracks ts w h))

  read-Tracks :
      (t k : ℕ) (ts : List ℕ) (s : Store)
      → Tracks key ts s
      → t < (k + 2) * minute_ns
      → or_zero (count (read t s (window_key key k))) ≡ requests_in k ts
  unfolding Tracks read
  read-Tracks t k ts s h l = count-Tracked t (requests_in k ts) k (s (window_key key k)) (h k) l

  earlier_same :
      (t : ℕ) (ts : List ℕ)
      → 0 < minute_of t
      → requests_in (minute_of t - 1) (t ∷ ts) ≡ requests_in (minute_of t - 1) ts
  earlier_same t ts p = ground arith

  verdict-script_total :
      (t : ℕ) (ts : List ℕ) (w : World Gate)
      → Tracks key ts w.redis
      → 0 < minute_of t
      → verdict t w ≡ leb (script_total t (t ∷ ts)) limit
  unfolding verdict check sliding_window
  verdict-script_total t ts w h p =
      let after = hit t (window_key key (minute_of t)) minute_ms w.redis in
      let tracks = hit-Tracks key ts w.redis t h in
      ap₂ (λ a b. leb (weighted a (quotient (left t) minute_ms) b) limit)
        (read-Tracks t (minute_of t - 1) (t ∷ ts) after tracks (omega (arith, p)))
        (read-Tracks t (minute_of t) (t ∷ ts) after tracks (omega arith))

  -- The answer to a request compares a total with the limit, and that total is the estimate, computed
  -- from the requests alone: those that came before, in whatever order their times are, with the one
  -- at hand, each counted whether or not it was let through. Where the share of the minute before is
  -- a whole number, rounding may make the total one less than the estimate. (At first Redis holds no
  -- counter of the key; no call to it fails; the clock is past the first minute of 1970; there are
  -- fewer than 2^30 requests in either minute.)
  pub allow-estimate :
      (w : World Gate) (ts : List ℕ) (t : ℕ)
      → ((k : ℕ) → w.redis (window_key key k) ≡ none)
      → 0 < minute_of t
      → requests_in (minute_of t - 1) (t ∷ ts) < 2 ^ 30
      → requests_in (minute_of t) (t ∷ ts) < 2 ^ 30
      → (total : ℕ) × ((allow key limit minute_ms (record (calm (serve ts w)) { now = t })).0
          ≡ ok (leb total limit))
        × ((total ≡ estimate t (t ∷ ts))
            ⊎ ((total + 1 ≡ estimate t (t ∷ ts))
                × (requests_in (minute_of t - 1) (t ∷ ts) * left t % minute_ms ≡ 0)))
  unfolding allow attempt Tracks read verdict
  allow-estimate w ts t fresh p few_before few = (
    script_total t (t ∷ ts),
    ap ok (verdict-script_total t ts (serve ts w) (serve-Tracks ts w (λ k. inl (refl, fresh k))) p),
    weighted-exact (requests_in (minute_of t - 1) (t ∷ ts)) (left t)
        (requests_in (minute_of t) (t ∷ ts)) few_before few (omega arith),
  )

  over_limit :
      (t : ℕ) (ts : List ℕ)
      → limit < 2 ^ 53
      → limit < requests_in (minute_of t) (t ∷ ts)
      → leb (script_total t (t ∷ ts)) limit ≡ false
  over_limit t ts small over =
      let kept =
        weighted_keeps (requests_in (minute_of t - 1) (t ∷ ts)) (quotient (left t) minute_ms)
          (requests_in (minute_of t) (t ∷ ts)) (limit + 1) (omega (arith, small))
          (omega (arith, over)) in
      ground (arith, kept)

  -- How many of the requests in the minute `k` were let through.
  pub admitted : ℕ → List ℕ → World Gate → ℕ
  admitted k [] w = 0
  admitted k (t ∷ ts) w =
      (if minute_of t == k then (if verdict t (serve ts w) then 1 else 0) else 0) + admitted k ts w

  admitted-requests_in : (k : ℕ) (ts : List ℕ) (w : World Gate) → admitted k ts w ≤ requests_in k ts
  unfolding admitted
  admitted-requests_in k [] w = omega arith
  admitted-requests_in k (t ∷ ts) w = ground (arith, admitted-requests_in k ts w)

  -- In no minute does a key get more requests through than its limit, however the requests fall
  -- within it and whatever came before. (At first Redis holds no counter of the key; no call to it
  -- fails; the minute is not the first of 1970; the limit is below 2^53, up to which the script's
  -- numbers count.)
  pub admitted-limit :
      (w : World Gate) (ts : List ℕ) (k : ℕ)
      → ((k : ℕ) → w.redis (window_key key k) ≡ none)
      → 0 < k
      → limit < 2 ^ 53
      → admitted k ts w ≤ limit
  unfolding admitted Tracks
  admitted-limit w [] k fresh p small = omega arith
  admitted-limit w (t ∷ ts) k fresh p small = ground (
    arith,
    admitted-limit w ts k fresh p small,
    admitted-requests_in k ts w,
    verdict-script_total t ts (serve ts w) (serve-Tracks ts w (λ k. inl (refl, fresh k))),
    over_limit t ts small,
  )
