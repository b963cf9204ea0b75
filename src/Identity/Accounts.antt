-- ===== src/Identity/Accounts.antt =====
-- Registration, the password, the profile and the role (modules/identity/application: register.go,
-- change_password.go, profile.go, set_user_role.go).
use lynk.Base.{Bytes, Bool, false, Option, none, some, if◌then◌else◌}
use lynk.Effects.{
  Result, ok, err, user_not_found, invalid_credentials, pure, raise, lift, get_now, draw,
  within_transaction, ◌>>=◌, ◌>>◌,
}
use lynk.Identity.Domain.{User, new_user_id, new_user, change_password, change_role, pull_events}
use lynk.Identity.Outside.{Outside, new_email}
use lynk.Identity.Repositories.{
  Action, new_id, create_user, get_user_by_id, update_user, revoke_all_for_user, publish,
}

abbrev pub or_unknown : Result Bytes → Action Bytes
or_unknown (ok id) = pure id
or_unknown (err e) = raise user_not_found

abbrev pub verified : Option Bool → Bool
verified none = false
verified (some b) = b

module _ (o : Outside) where
  -- Argon2idHasher.Hash
  unfoldable pub hash_password : Bytes → Action Bytes
  hash_password password = do n ← draw; pure (o.hash_password n password)

  -- The events are pulled in the transaction; the caller gets the user without them.
  unfoldable pub register : Bytes → Bytes → Bytes → Action User
  register email password full_name = do
    address ← lift (new_email o email)
    raw_id ← new_id o
    user_id ← lift (new_user_id raw_id)
    hash ← hash_password password
    now ← get_now
    user ← lift (new_user user_id address hash full_name now)
    let pulled = pull_events user
    within_transaction (do create_user o user; publish o pulled.0)
    pure pulled.1

  unfoldable pub change_password_of : Bytes → Bytes → Bytes → Action (Unit {0})
  change_password_of raw_id current_password new_password = do
    id ← or_unknown (new_user_id raw_id)
    user ← get_user_by_id o id
    if verified (o.verify_password user.password_hash current_password)
        then (do
          new_hash ← hash_password new_password
          now ← get_now
          let changed = change_password new_hash now user
          within_transaction (do
            update_user o changed
            revoke_all_for_user o changed.id now
            publish o (pull_events changed).0))
        else raise invalid_credentials

  unfoldable pub get_profile : Bytes → Action User
  get_profile raw_id = do id ← or_unknown (new_user_id raw_id); get_user_by_id o id

  unfoldable pub set_user_role : Bytes → Bytes → Action User
  set_user_role raw_id role = do
    id ← or_unknown (new_user_id raw_id)
    within_transaction (do
      user ← get_user_by_id o id
      now ← get_now
      changed ← lift (change_role role now user)
      update_user o changed
      let pulled = pull_events changed
      publish o pulled.0
      pure pulled.1)
