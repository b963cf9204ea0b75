-- ===== src/Identity/ApiKeys/Revocation.antt =====
-- What a revoked API key is worth afterwards, the cache of keys included
-- (modules/identity/application/api_key.go, infrastructure/adapters.go).
mod Tests
use lynk.Base.{
  ℕ, ◌+◌, ◌≤◌, ◌≡◌, ◌⊎◌, inl, inr, refl, sym, ap, ◌∙◌, subst, Bytes, Bool, true, false, ◌&&◌, not,
  List, [], ◌∷◌, ◌++◌, Option, none, some, arith, bytes_eq, bytes_eq_iff, bytes_eq_refl, find?, any,
  update_where, has_prefix, ltb, if◌then◌else◌,
}
use lynk.Effects.{
  World, Result, ok, err, Error, api_key_not_found, calm, attempt, draw, handle, raise, pure,
  get_db, get_now, put_db, within_transaction, ◌>>=◌, ◌>>◌,
}
use lynk.Effects.Redis.{Cell, Store, text, pair, live, read, set, del, write}
use lynk.Effects.Rules.{within_transaction_ok}
use lynk.Identity.Database.{Db, UserRow, is_revocable, revoke_key}
use lynk.Identity.Domain.{ApiKey, api_key_revoked, can_sign_in, key_is_active, is_nil, new_user_id}
use lynk.Identity.Outside.{Outside}
use lynk.Identity.Ports.{
  cache_key, index_key, api_key_cache_ttl, cached, cache_lookup, cache_store, cache_drop,
  drop_found, hash_of,
}
use lynk.Identity.Repositories.{revoke_api_key, publish, get_user_by_id, get_api_key_by_hash}
use lynk.Identity.Repositories.Reads.{IsSound, user_of, get_user_by_id_found}
use lynk.Identity.Sessions.{Lifetimes}
use lynk.Identity.ApiKeys.{
  api_key_prefix, validate, accept_cached, accept_key, accept_owner_id, accept_owner, revoke,
}

-- The two entries that stand for a key, with the same end.
record IsCached (s : Store) (key_id hash user_id role : Bytes) (end : ℕ) : Type 0 where
  by_hash : s (cache_key hash) ≡ some (record { value = pair user_id role; expires_at = some end })
  by_id : s (index_key key_id) ≡ some (record { value = text hash; expires_at = some end })

store-IsCached :
    (s : Store) (key_id hash user_id role : Bytes) (now : ℕ)
    → IsCached
        (set now
          (set now s (cache_key hash) (pair user_id role) api_key_cache_ttl)
          (index_key key_id)
          (text hash)
          api_key_cache_ttl)
        key_id
        hash
        user_id
        role
        (now + api_key_cache_ttl)
unfolding set write bytes_eq
store-IsCached s key_id hash user_id role now = record {
  by_hash = rw (bytes_eq_refl hash);
  by_id = rw (bytes_eq_refl key_id);
}

-- The entry by hash is unreadable at `later`, in the store that a drop at `now` leaves, whether the
-- index was still there to find it or not.
cache_dropped :
    (w : World Db) (key_id hash user_id role : Bytes) (end later : ℕ)
    → IsCached w.redis key_id hash user_id role end
    → w.now ≤ later
    → cached (read later (cache_drop key_id (calm w)).1.redis (cache_key hash)) ≡ none
unfolding cache_drop drop_found attempt read del write pure bytes_eq
cache_dropped w key_id hash user_id role end later c passed =
    rw c.by_id (ground (arith, bytes_eq_refl hash, c.by_hash, passed))

-- The entry by hash is unreadable from its end on, whatever a drop leaves of it.
cache_expired :
    (w : World Db) (raw hash : Bytes) (c : Cell) (end later : ℕ)
    → w.redis (cache_key hash) ≡ some c
    → c.expires_at ≡ some end
    → end ≤ later
    → cached (read later (cache_drop raw (calm w)).1.redis (cache_key hash)) ≡ none
unfolding cache_drop drop_found attempt read pure del write
cache_expired w raw hash c end later kept ends passed =
    go (hash_of (read w.now w.redis (index_key raw)))
  where
    past : cached (live later (w.redis (cache_key hash))) ≡ none
    past = rw (kept, ends) (ground (arith, passed))

    go :
        (found : Option Bytes)
        → cached (read later (drop_found raw found (calm w)).1.redis (cache_key hash)) ≡ none
    go none = past
    go (some h) = ground (arith, past)

drop_keeps : (w : World Db) (key_id : Bytes) → (cache_drop key_id (calm w)).1.db ≡ w.db
unfolding cache_drop drop_found attempt pure
drop_keeps w key_id = ground (arith)

-- The row by its hash, after a revocation that applies to it.
find_revoked :
    (hash key_id user_id : Bytes) (now : ℕ) (keys : List ApiKey) (k : ApiKey)
    → find? (λ j. bytes_eq j.key_hash hash) keys ≡ some k
    → is_revocable key_id user_id k ≡ true
    → find? (λ j. bytes_eq j.key_hash hash) (revoke_key key_id user_id now keys)
      ≡ some (record k { revoked_at = some now })
unfolding revoke_key
find_revoked hash key_id user_id now [] k found r = cc
find_revoked hash key_id user_id now (j ∷ js) k found r =
    ground (arith, found, r, find_revoked hash key_id user_id now js k)

any_revocable :
    (hash key_id user_id : Bytes) (keys : List ApiKey) (k : ApiKey)
    → find? (λ j. bytes_eq j.key_hash hash) keys ≡ some k
    → is_revocable key_id user_id k ≡ true
    → any (is_revocable key_id user_id) keys ≡ true
any_revocable hash key_id user_id [] k found r = cc
any_revocable hash key_id user_id (j ∷ js) k found r =
    ground (arith, found, r, any_revocable hash key_id user_id js k)

module _ (o : Outside) (t : Lifetimes) where
  validate_refused :
      (w : World Db) (presented : Bytes) (k : ApiKey)
      → has_prefix api_key_prefix presented ≡ true
      → cached (read w.now w.redis (cache_key (o.hash_token presented))) ≡ none
      → find? (λ j. bytes_eq j.key_hash (o.hash_token presented)) w.db.api_keys ≡ some k
      → is_nil k.revoked_at ≡ false
      → validate o t presented (calm w) ≡ (err api_key_not_found, calm w)
  unfolding validate accept_cached accept_key cache_lookup get_api_key_by_hash attempt raise pure
      get_db
  validate_refused w presented k named missed found revoked = rw (named, missed, found, revoked)

  -- A key that is served from the database.
  pub record IsServed (w : World Db) (presented : Bytes) (k : ApiKey) (row : UserRow) : Type 0 where
    pub named : has_prefix api_key_prefix presented ≡ true
    pub missed : cached (read w.now w.redis (cache_key (o.hash_token presented))) ≡ none
    pub found : find? (λ j. bytes_eq j.key_hash (o.hash_token presented)) w.db.api_keys ≡ some k
    pub live : is_nil k.revoked_at ≡ true
    pub owner : find? (λ r. bytes_eq r.id k.user_id) w.db.users ≡ some row
    pub owner_id : row.id ≡ k.user_id
    pub sound : IsSound o row
    pub may_sign_in : can_sign_in (user_of row) ≡ true

  served : World Db → Bytes → ApiKey → UserRow → World Db
  served w hash k row = record (calm w) {
    redis =
        set w.now (set w.now w.redis (cache_key hash) (pair row.id row.role) api_key_cache_ttl)
          (index_key k.id) (text hash) api_key_cache_ttl;
  }

  first_answer :
      (w : World Db) (presented : Bytes) (k : ApiKey) (row : UserRow)
      → IsServed w presented k row
      → validate o t presented (calm w)
        ≡ (ok (row.id, row.role), served w (o.hash_token presented) k row)
  unfolding validate accept_cached accept_key accept_owner_id accept_owner cache_lookup cache_store
      get_api_key_by_hash attempt raise pure get_db served
  first_answer w presented k row s = rw (
    s.named,
    s.missed,
    s.found,
    s.live,
    subst (λ i. new_user_id i ≡ ok i) s.owner_id s.sound.id_shape,
    get_user_by_id_found o k.user_id row w
        (subst (λ i. o.scan_uuid i ≡ some i) s.owner_id s.sound.id_scans) s.owner s.sound,
    s.may_sign_in,
  )

  -- The row revoked, and the event, which names the key as the request does.
  revoked_world : World Db → ApiKey → Bytes → World Db
  revoked_world v k raw = record (calm v) {
    db = record v.db {
      api_keys = revoke_key k.id k.user_id v.now v.db.api_keys;
      outbox =
          v.db.outbox
          ++ record {
            id = o.uuid v.now v.draws;
            event = api_key_revoked k.user_id raw v.now;
            occurred_at = v.now;
            published_at = none;
          }
            ∷ [];
    };
    draws = v.draws + 1;
  }

  revoke_body :
      (v : World Db) (k : ApiKey) (raw : Bytes)
      → o.scan_uuid raw ≡ some k.id
      → o.scan_uuid k.user_id ≡ some k.user_id
      → o.scan_uuid (o.uuid v.now v.draws) ≡ some (o.uuid v.now v.draws)
      → any (is_revocable k.id k.user_id) v.db.api_keys ≡ true
      → (revoke_api_key o raw k.user_id v.now
            >> publish o (api_key_revoked k.user_id raw v.now ∷ []))
          (record (calm v) { in_tx = true })
        ≡ (ok tt, calm (revoked_world (record v { in_tx = true }) k raw))
  unfolding revoke_api_key publish attempt draw get_db get_now put_db pure raise revoked_world
  revoke_body v k raw key owner event has = rw (key, owner, has, event)

  revoke_lem :
      (v : World Db) (k : ApiKey) (raw : Bytes)
      → v.in_tx ≡ false
      → o.scan_uuid raw ≡ some k.id
      → o.scan_uuid k.user_id ≡ some k.user_id
      → o.scan_uuid (o.uuid v.now v.draws) ≡ some (o.uuid v.now v.draws)
      → any (is_revocable k.id k.user_id) v.db.api_keys ≡ true
      → revoke o t k.user_id raw (calm v) ≡ cache_drop raw (calm (revoked_world v k raw))
  unfolding revoke get_now revoked_world
  revoke_lem v k raw closed key owner event has =
      rw
        (within_transaction_ok _ v (revoked_world (record v { in_tx = true }) k raw) tt closed
          (revoke_body v k raw key owner event has))
        (rw closed)

  revocable :
      (w : World Db) (presented : Bytes) (k : ApiKey) (row : UserRow)
      → IsServed w presented k row
      → is_revocable k.id k.user_id k ≡ true
  revocable w presented k row s = rw (bytes_eq_refl k.id, bytes_eq_refl k.user_id, s.live)

  -- What the drop after the revocation leaves of the entry is unreadable: at once under the id of
  -- the row, from its end on under another spelling.
  unreadable :
      (v : World Db) (key_id raw hash user_id role : Bytes) (end later : ℕ)
      → IsCached v.redis key_id hash user_id role end
      → v.now ≤ later
      → (raw ≡ key_id) ⊎ (end ≤ later)
      → cached (read later (cache_drop raw (calm v)).1.redis (cache_key hash)) ≡ none
  unreadable v key_id raw hash user_id role end later kept passed (inl same) =
      rw same (cache_dropped v key_id hash user_id role end later kept passed)
  unreadable v key_id raw hash user_id role end later kept passed (inr over) =
      cache_expired v raw hash (record { value = pair user_id role; expires_at = some end }) end
        later kept.by_hash refl over

  -- Refused once the drop after the revocation is done.
  refused_after_drop :
      (v : World Db) (presented raw : Bytes) (k : ApiKey) (row : UserRow) (end later : ℕ)
      → has_prefix api_key_prefix presented ≡ true
      → IsCached v.redis k.id (o.hash_token presented) row.id row.role end
      → find? (λ j. bytes_eq j.key_hash (o.hash_token presented)) v.db.api_keys ≡ some k
      → is_nil k.revoked_at ≡ false
      → v.now ≤ later
      → (raw ≡ k.id) ⊎ (end ≤ later)
      → let x = record (calm (cache_drop raw (calm v)).1) { now = later } in
        validate o t presented x ≡ (err api_key_not_found, x)
  refused_after_drop v presented raw k row end later named kept found revoked passed when =
      validate_refused (record (cache_drop raw (calm v)).1 { now = later }) presented k named
        (unreadable v k.id raw (o.hash_token presented) row.id row.role end later kept passed when)
        (subst (λ d. find? (λ j. bytes_eq j.key_hash (o.hash_token presented)) d.api_keys ≡ some k)
          (sym (drop_keeps v raw)) found)
        revoked

  -- A revoked key is worth nothing, the cache included. A key that was served, and so cached, and
  -- that its owner then revokes, at whatever time after it was served, is refused from then on when
  -- the revocation gives the id as the row has it; when it gives another spelling that the database
  -- reads as the same id, the key is refused once ten minutes, the life of a cache entry, have
  -- passed since it was served. (No call fails.)
  pub validate-revoke :
      (w : World Db) (presented raw : Bytes) (k : ApiKey) (row : UserRow) (revoked_at later : ℕ)
      → w.in_tx ≡ false
      → IsServed w presented k row
      → o.scan_uuid raw ≡ some k.id
      → o.scan_uuid (o.uuid revoked_at w.draws) ≡ some (o.uuid revoked_at w.draws)
      → revoked_at ≤ later
      → (raw ≡ k.id) ⊎ (w.now + api_key_cache_ttl ≤ later)
      → let first = validate o t presented (calm w) in
        let second = revoke o t k.user_id raw (record (calm first.1) { now = revoked_at }) in
        let x = record (calm second.1) { now = later } in
        (first.0 ≡ ok (row.id, row.role)) × (validate o t presented x ≡ (err api_key_not_found, x))
  unfolding served revoked_world
  validate-revoke w presented raw k row revoked_at later closed s names event passed when =
      subst
        (λ r.
          let second = revoke o t k.user_id raw (record (calm r.1) { now = revoked_at }) in
          let x = record (calm second.1) { now = later } in
          (r.0 ≡ ok (row.id, row.role)) × (validate o t presented x ≡ (err api_key_not_found, x)))
        (sym (first_answer w presented k row s))
        (
          refl,
          subst
              (λ r.
                let x = record (calm r.1) { now = later } in
                validate o t presented x ≡ (err api_key_not_found, x))
              (sym (
                revoke_lem v k raw closed names
                  (subst (λ i. o.scan_uuid i ≡ some i) s.owner_id s.sound.id_scans) event
                  (any_revocable hash k.id k.user_id w.db.api_keys k s.found
                    (revocable w presented k row s))))
              (refused_after_drop (revoked_world v k raw) presented raw
                (record k { revoked_at = some revoked_at }) row (w.now + api_key_cache_ttl) later
                s.named (store-IsCached w.redis k.id hash row.id row.role w.now)
                (find_revoked hash k.id k.user_id revoked_at w.db.api_keys k s.found
                  (revocable w presented k row s))
                refl passed when),
        )
    where
      hash : Bytes
      hash = o.hash_token presented

      v : World Db
      v = record (served w (o.hash_token presented) k row) { now = revoked_at }
