-- ===== src/Edge/RateLimit/Endpoints.antt =====
-- The limits of single endpoints (`PerEndpoint` of edge/ratelimit.go) stand in a map, which Go walks
-- in no fixed order.
use mathlib.Core.List.{Permᴰ}
use lynk.Base.{
  ℕ, ◌+◌, ◌≤◌, ◌≡◌, refl, Bytes, Bool, true, false, ◌&&◌, List, [], ◌∷◌, Option, none, arith, ◌==◌,
  has_prefix, has_suffix, reverse, if◌then◌else◌,
}
use lynk.Effects.{World}
use lynk.Edge.Http.{Gate, Request, Handler}
use lynk.Edge.RateLimit.{matching, per_endpoint, endpoint_limits}

-- The two differ at a position that both have.
unfoldable clash : Bytes → Bytes → Bool
clash [] q = false
clash (c ∷ p) [] = false
clash (c ∷ p) (d ∷ q) = if c == d then clash p q else true

has_prefix-clash :
    (p q s : Bytes) → has_prefix p s ≡ true → has_prefix q s ≡ true → clash p q ≡ false
unfolding has_prefix clash
has_prefix-clash [] q s h k = refl
has_prefix-clash (c ∷ p) [] s h k = refl
has_prefix-clash (c ∷ p) (d ∷ q) [] h k = cc
has_prefix-clash (c ∷ p) (d ∷ q) (e ∷ s) h k = ground (arith, has_prefix-clash p q s)

-- No path ends in both.
abbrev apart : Bytes × ℕ → Bytes × ℕ → Bool
apart a b = clash (reverse a.0) (reverse b.0)

abbrev apart_from_all : Bytes × ℕ → List (Bytes × ℕ) → Bool
apart_from_all a [] = true
apart_from_all a (b ∷ bs) = apart a b && apart_from_all a bs

abbrev all_apart : List (Bytes × ℕ) → Bool
all_apart [] = true
all_apart (a ∷ rest) = apart_from_all a rest && all_apart rest

abbrev matches : Bytes → List (Bytes × ℕ) → ℕ
matches path [] = 0
matches path (e ∷ es) = (if has_suffix e.0 path then 1 else 0) + matches path es

matches_apart :
    (path : Bytes) (a : Bytes × ℕ) (es : List (Bytes × ℕ))
    → apart_from_all a es ≡ true
    → has_suffix a.0 path ≡ true
    → matches path es ≡ 0
unfolding has_suffix
matches_apart path a [] h k = refl
matches_apart path a (b ∷ bs) h k =
    ground
      (arith, has_prefix-clash (reverse a.0) (reverse b.0) (reverse path), matches_apart path a bs)

at_most_one : (path : Bytes) (es : List (Bytes × ℕ)) → all_apart es ≡ true → matches path es ≤ 1
at_most_one path [] h = omega arith
at_most_one path (e ∷ es) h = ground (arith, at_most_one path es, matches_apart path e es)

no_match : (path : Bytes) (es : List (Bytes × ℕ)) → matches path es ≡ 0 → matching es path ≡ none
unfolding matching
no_match path [] h = refl
no_match path (e ∷ es) h = ground (arith, no_match path es)

-- Where at most one entry matches, their order does not matter.
matching-Perm :
    (path : Bytes) (xs ys : List (Bytes × ℕ))
    → Permᴰ xs ys
    → (matches path xs ≡ matches path ys)
      × (matches path xs ≤ 1 → matching xs path ≡ matching ys path)
unfolding matching
matching-Perm path _ _ Permᴰ.nil = (refl, λ h. refl)
matching-Perm path _ _ (Permᴰ.cons {a} {b} {l₁} {l₂} e p) =
    ground (arith, e, matching-Perm path l₁ l₂ p, no_match path l₁, no_match path l₂)
matching-Perm path _ _ (Permᴰ.swap {a} {b} {a'} {b'} {l} e f) = ground (arith, e, f)
matching-Perm path _ _ (Permᴰ.trans {l₁} {l₂} {l₃} p q) =
    ground (arith, matching-Perm path l₁ l₂ p, matching-Perm path l₂ l₃ q)

limits_apart : all_apart endpoint_limits ≡ true
unfolding clash
limits_apart = refl

-- In whatever order Go walks the map of the gateway's endpoint limits, a request is counted against
-- the same limit and goes on, or is refused, alike.
pub per_endpoint-Perm :
    (split : Bytes → Option Bytes) (walked : List (Bytes × ℕ)) (next : Handler) (r : Request)
    (w : World Gate)
    → Permᴰ endpoint_limits walked
    → per_endpoint split walked next r w ≡ per_endpoint split endpoint_limits next r w
unfolding per_endpoint
per_endpoint-Perm split walked next r w p = rw (
    (matching-Perm r.path endpoint_limits walked p).1
      (at_most_one r.path endpoint_limits limits_apart))
