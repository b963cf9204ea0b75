-- ===== src/Identity/Ports.antt =====
-- The Redis adapters of modules/identity/infrastructure/adapters.go: the login throttle, the
-- blacklist, the cache of API keys. The codec of the cached entry is taken to lose nothing.
use lynk.Base.{ℕ, Bytes, codes, Bool, true, [], ◌∷◌, ◌++◌, Option, none, some, ltb}
use lynk.Effects.{ok, err, pure, attempt, minutes, ◌>>◌, handle}
use lynk.Effects.Redis.{Cell, Value, text, pair, Store, read, set, del, incr, expire, count}
use lynk.Identity.Outside.{Outside}
use lynk.Identity.Repositories.{Action}

abbrev pub throttle_max_failures : ℕ
throttle_max_failures = 5

abbrev pub throttle_window : ℕ
throttle_window = minutes 15

unfoldable pub get_cell : Bytes → Action (Option Cell)
get_cell k w = (ok (read w.now w.redis k), w)

unfoldable pub put_cell : Bytes → Value → ℕ → Action (Unit {0})
put_cell k v ttl w = (ok tt, record w { redis = set w.now w.redis k v ttl })

-- A command whose error is dropped: it fails, or it does its work.
abbrev pub best_effort : (ℕ → Store → Store) → Action (Unit {0})
best_effort f =
    handle attempt
      λ r w. elim r [ err e ↦ (ok tt, w) | ok _ ↦ (ok tt, record w { redis = f w.now w.redis }) ]

abbrev pub below_limit : Option ℕ → Bool
below_limit none = true
below_limit (some n) = ltb n throttle_max_failures

module _ (o : Outside) where
  unfoldable pub throttle_key : Bytes → Bytes
  throttle_key identifier = codes "login:fails:" ++ o.hash_token identifier

  -- A missing key and an unreachable Redis both allow.
  unfoldable pub allowed : Bytes → Action Bool
  allowed identifier = handle attempt λ r w. elim r [
    | err e ↦ (ok true, w)
    | ok _ ↦ (ok (below_limit (count (read w.now w.redis (throttle_key identifier)))), w)
  ]

  -- INCR and EXPIRE in one transaction of Redis.
  unfoldable pub record_failure : Bytes → Action (Unit {0})
  record_failure identifier = best_effort λ now s.
      expire now (incr now s (throttle_key identifier)) (throttle_key identifier) throttle_window

  unfoldable pub reset : Bytes → Action (Unit {0})
  reset identifier = best_effort λ now s. del s (throttle_key identifier)

abbrev pub blacklist_key : Bytes → Bytes
blacklist_key jti = codes "jwt:blacklist:" ++ jti

announce : Bytes → Action (Unit {0})
announce jti = handle attempt λ r w. elim r [
  | err e ↦ (ok tt, w)
  | ok _ ↦ (ok tt, record w { published = w.published ++ jti ∷ [] })
]

-- RedisBlacklist.Revoke: the key must be written, the message to the gateways may be lost.
unfoldable pub blacklist : Bytes → ℕ → Action (Unit {0})
unfolding announce put_cell
blacklist jti ttl = do attempt; put_cell (blacklist_key jti) (text (codes "1")) ttl; announce jti

-- LogNotifier.SendOTP: the code is logged, to nobody else.
unfoldable pub send_otp : Bytes → Bytes → Action (Unit {0})
send_otp email code w = (ok tt, record w { mails = w.mails ++ (email, code) ∷ [] })

abbrev pub api_key_cache_ttl : ℕ
api_key_cache_ttl = minutes 10

abbrev pub cache_key : Bytes → Bytes
cache_key hash = codes "apikey:cache:" ++ hash

abbrev pub index_key : Bytes → Bytes
index_key key_id = codes "apikey:byid:" ++ key_id

abbrev pub cached : Option Cell → Option (Bytes × Bytes)
cached none = none
cached (some c) = elim c.value [ pair user_id role ↦ some (user_id, role) | _ ↦ none ]

-- RedisAPIKeyCache.Lookup
unfoldable pub cache_lookup : Bytes → Action (Option (Bytes × Bytes))
cache_lookup hash = handle attempt λ r w. elim r [
  | err e ↦ (ok none, w)
  | ok _ ↦ (ok (cached (read w.now w.redis (cache_key hash))), w)
]

-- RedisAPIKeyCache.Store: both keys in one transaction of Redis.
unfoldable pub cache_store : (hash key_id user_id role : Bytes) → Action (Unit {0})
cache_store hash key_id user_id role = best_effort λ now s.
    set now (set now s (cache_key hash) (pair user_id role) api_key_cache_ttl) (index_key key_id)
      (text hash) api_key_cache_ttl

abbrev pub hash_of : Option Cell → Option Bytes
hash_of none = none
hash_of (some c) = elim c.value [ text hash ↦ some hash | _ ↦ none ]

unfoldable pub drop_found : Bytes → Option Bytes → Action (Unit {0})
drop_found key_id none = pure tt
drop_found key_id (some hash) = best_effort λ now s. del (del s (cache_key hash)) (index_key key_id)

-- RedisAPIKeyCache.Drop: through the index by key id; without an entry there, nothing is dropped.
unfoldable pub cache_drop : Bytes → Action (Unit {0})
unfolding drop_found
cache_drop key_id = handle attempt λ r w. elim r [
  | err e ↦ (ok tt, w)
  | ok _ ↦ drop_found key_id (hash_of (read w.now w.redis (index_key key_id))) w
]
