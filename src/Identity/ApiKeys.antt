-- ===== src/Identity/ApiKeys.antt =====
-- Machine credentials (modules/identity/application/api_key.go).
pub mod Revocation
use lynk.Base.{
  ◌+◌, Bytes, codes, List, [], ◌∷◌, ◌++◌, Option, none, some, not, has_prefix, length, take,
  if◌then◌else◌,
}
use lynk.Effects.{
  Result, ok, err, api_key_not_found, pure, raise, get_now, handle, within_transaction, ◌>>=◌, ◌>>◌,
}
use lynk.Identity.Domain.{
  User, ApiKey, new_user_id, new_api_key, key_is_active, can_sign_in, api_key_created,
  api_key_revoked,
}
use lynk.Identity.Outside.{Outside}
use lynk.Identity.Repositories.{
  Action, new_id, get_user_by_id, create_api_key, list_api_keys, get_api_key_by_hash,
  revoke_api_key, publish,
}
use lynk.Identity.Ports.{cache_lookup, cache_store, cache_drop}
use lynk.Identity.Sessions.{Lifetimes, generate}

abbrev pub api_key_prefix : Bytes
api_key_prefix = codes "lynk_"

module _ (o : Outside) (t : Lifetimes) where
  -- The record, and the secret that is shown once.
  unfoldable pub create : Bytes → Bytes → Action (ApiKey × Bytes)
  create user_id name = do
    generated ← generate o t
    let full = api_key_prefix ++ generated.0
    let hash = o.hash_token full
    let prefix = take (length api_key_prefix + 4) full
    key_id ← new_id o
    now ← get_now
    let key = new_api_key key_id user_id name hash prefix now
    within_transaction
        (do create_api_key o key; publish o (api_key_created user_id key_id name now ∷ []))
    pure (key, full)

  unfoldable pub list : Bytes → Action (List ApiKey)
  list user_id = list_api_keys o user_id

  unfoldable pub revoke : Bytes → Bytes → Action (Unit {0})
  revoke user_id key_id = do
    now ← get_now
    within_transaction (do
      revoke_api_key o key_id user_id now
      publish o (api_key_revoked user_id key_id now ∷ []))
    cache_drop key_id

  -- Whatever goes wrong below, the caller sees one error.
  unfoldable pub accept_owner : Bytes → ApiKey → Result User → Action (Bytes × Bytes)
  accept_owner hash key (err e) = raise api_key_not_found
  accept_owner hash key (ok owner) =
      if not (can_sign_in owner)
      then raise api_key_not_found
      else (do cache_store hash key.id owner.id owner.role; pure (owner.id, owner.role))

  unfoldable pub accept_owner_id : Bytes → ApiKey → Result Bytes → Action (Bytes × Bytes)
  accept_owner_id hash key (err e) = raise api_key_not_found
  accept_owner_id hash key (ok owner_id) =
      handle (get_user_by_id o owner_id) (accept_owner hash key)

  unfoldable pub accept_key : Bytes → Result ApiKey → Action (Bytes × Bytes)
  unfolding accept_owner accept_owner_id
  accept_key hash (err e) = raise api_key_not_found
  accept_key hash (ok key) =
      if not (key_is_active key)
      then raise api_key_not_found
      else accept_owner_id hash key (new_user_id key.user_id)

  unfoldable pub accept_cached : Bytes → Option (Bytes × Bytes) → Action (Bytes × Bytes)
  unfolding accept_key
  accept_cached hash (some found) = pure found
  accept_cached hash none = handle (get_api_key_by_hash o hash) (accept_key hash)

  unfoldable pub validate : Bytes → Action (Bytes × Bytes)
  unfolding accept_cached
  validate presented =
      if not (has_prefix api_key_prefix presented) then raise api_key_not_found else (do
        let hash = o.hash_token presented
        found ← cache_lookup hash
        accept_cached hash found)
