-- ===== src/Identity/Repositories.antt =====
-- The repositories of modules/identity/infrastructure and its outbox publisher. Each statement is
-- one call that may fail; the transaction in force is the world's.
pub mod Reads
use lynk.Base.{
  ℕ, ◌+◌, Bytes, Bool, true, false, ◌&&◌, ◌||◌, List, [], ◌∷◌, ◌++◌, Option, none, some, bytes_eq,
  any, find?, update_where, if◌then◌else◌,
}
use lynk.Effects.{
  World, App, Result, ok, err, Error, infrastructure, corrupt_user_id, corrupt_user_email,
  user_not_found, email_taken, concurrent_update, refresh_token_invalid, invalid_otp,
  api_key_not_found, pure, raise, lift, get_now, get_db, put_db, attempt, draw, ◌>>=◌, ◌>>◌,
}
use lynk.Identity.Domain.{Event, User, RefreshToken, OtpPurpose, Otp, ApiKey, new_user_id}
use lynk.Identity.Outside.{Outside, new_email}
use lynk.Identity.Database.{
  UserRow, OutboxRow, Db, row_of, clashes, has_id_version, written, unverified, verified,
  revoke_session, revoke_sessions_of, newest_code, consume_code, is_revocable, revoke_key, keys_of,
}

abbrev pub Action : Type 0 → Type 0
Action = App Db

abbrev pub or_raise : {A : Type 0} → Option A → Error → Action A
or_raise none e = raise e
or_raise (some a) e = pure a

-- The sentinel below stays what `errors.Is` finds, and the text says that the row is corrupt.
abbrev pub or_corrupt : {A : Type 0} → Error → Result A → Action A
or_corrupt corrupt (ok a) = pure a
or_corrupt corrupt (err e) = raise corrupt

module _ (o : Outside) where
  -- uuidFromString
  abbrev pub uuid_from : Bytes → Action Bytes
  uuid_from raw = or_raise (o.scan_uuid raw) infrastructure

  -- UUIDGenerator.NewID
  abbrev pub new_id : Action Bytes
  new_id = do now ← get_now; n ← draw; pure (o.uuid now n)

  -- userFromRow: the id and the address are validated again.
  abbrev pub user_from_row : UserRow → Action User
  user_from_row r = do
    id ← or_corrupt corrupt_user_id (new_user_id r.id)
    email ← or_corrupt corrupt_user_email (new_email o r.email)
    pure (record {
      id = id;
      email = email;
      password_hash = r.password_hash;
      full_name = r.full_name;
      role = r.role;
      status = r.status;
      version = r.version;
      created_at = r.created_at;
      updated_at = r.updated_at;
      events = [];
    })

  unfoldable pub create_user : User → Action (Unit {0})
  create_user u = do
    id ← uuid_from u.id
    attempt
    d ← get_db
    let row = record (row_of u) { id = id }
    if any (clashes (record u { id = id })) d.users
        then raise email_taken
        else put_db (record d { users = d.users ++ row ∷ [] })

  unfoldable pub get_user_by_email : Bytes → Action User
  get_user_by_email email = do
    attempt
    d ← get_db
    row ← or_raise (find? (λ r. bytes_eq r.email email) d.users) user_not_found
    user_from_row row

  unfoldable pub get_user_by_id : Bytes → Action User
  get_user_by_id raw = do
    id ← uuid_from raw
    attempt
    d ← get_db
    row ← or_raise (find? (λ r. bytes_eq r.id id) d.users) user_not_found
    user_from_row row

  unfoldable pub update_user : User → Action (Unit {0})
  update_user u = do
    id ← uuid_from u.id
    attempt
    d ← get_db
    if any (has_id_version id u.version) d.users
        then put_db
            (record d { users = update_where (has_id_version id u.version) (written u) d.users })
        else raise concurrent_update

  unfoldable pub mark_email_verified : Bytes → ℕ → Action (Unit {0})
  mark_email_verified raw now = do
    id ← uuid_from raw
    attempt
    d ← get_db
    put_db (record d { users = update_where (unverified id) (verified now) d.users })

  -- The primary key and the unique index on the hash.
  unfoldable pub create_session : RefreshToken → Action (Unit {0})
  create_session t = do
    id ← uuid_from t.id
    user_id ← uuid_from t.user_id
    attempt
    d ← get_db
    if any (λ s. bytes_eq s.id id || bytes_eq s.token_hash t.token_hash) d.sessions
        then raise infrastructure
        else put_db
            (record d { sessions = d.sessions ++ record t { id = id; user_id = user_id } ∷ [] })

  unfoldable pub get_session_by_hash : Bytes → Action RefreshToken
  get_session_by_hash hash = do
    attempt
    d ← get_db
    or_raise (find? (λ s. bytes_eq s.token_hash hash) d.sessions) refresh_token_invalid

  unfoldable pub revoke : Bytes → ℕ → Action (Unit {0})
  revoke raw now = do
    id ← uuid_from raw
    attempt
    d ← get_db
    put_db (record d { sessions = revoke_session id now d.sessions })

  unfoldable pub revoke_all_for_user : Bytes → ℕ → Action (Unit {0})
  revoke_all_for_user raw now = do
    id ← uuid_from raw
    attempt
    d ← get_db
    put_db (record d { sessions = revoke_sessions_of id now d.sessions })

  unfoldable pub create_otp : Otp → Action (Unit {0})
  create_otp c = do
    id ← uuid_from c.id
    user_id ← uuid_from c.user_id
    attempt
    d ← get_db
    if any (λ b. bytes_eq b.id id) d.otps
        then raise infrastructure
        else put_db (record d { otps = d.otps ++ record c { id = id; user_id = user_id } ∷ [] })

  unfoldable pub get_active_otp : Bytes → OtpPurpose → ℕ → Action Otp
  get_active_otp raw purpose now = do
    user_id ← uuid_from raw
    attempt
    d ← get_db
    or_raise (newest_code user_id purpose now d.otps) invalid_otp

  -- The count of rows is dropped, so that consuming a used code is no error.
  unfoldable pub consume_otp : Bytes → ℕ → Action (Unit {0})
  consume_otp raw now = do
    id ← uuid_from raw
    attempt
    d ← get_db
    put_db (record d { otps = consume_code id now d.otps })

  unfoldable pub create_api_key : ApiKey → Action (Unit {0})
  create_api_key k = do
    id ← uuid_from k.id
    user_id ← uuid_from k.user_id
    attempt
    d ← get_db
    if any (λ j. bytes_eq j.id id || bytes_eq j.key_hash k.key_hash) d.api_keys
        then raise infrastructure
        else put_db
            (record d { api_keys = d.api_keys ++ record k { id = id; user_id = user_id } ∷ [] })

  unfoldable pub list_api_keys : Bytes → Action (List ApiKey)
  list_api_keys raw = do
    user_id ← uuid_from raw
    attempt
    d ← get_db
    pure (keys_of user_id d.api_keys)

  unfoldable pub get_api_key_by_hash : Bytes → Action ApiKey
  get_api_key_by_hash hash = do
    attempt
    d ← get_db
    or_raise (find? (λ k. bytes_eq k.key_hash hash) d.api_keys) api_key_not_found

  unfoldable pub revoke_api_key : Bytes → Bytes → ℕ → Action (Unit {0})
  revoke_api_key raw owner now = do
    id ← uuid_from raw
    user_id ← uuid_from owner
    attempt
    d ← get_db
    if any (is_revocable id user_id) d.api_keys
        then put_db (record d { api_keys = revoke_key id user_id now d.api_keys })
        else raise api_key_not_found

  -- OutboxPublisher.Publish: one row for each event, in the caller's transaction.
  unfoldable pub publish : List Event → Action (Unit {0})
  publish [] = pure tt
  publish (e ∷ es) = do
    raw ← new_id
    id ← uuid_from raw
    now ← get_now
    attempt
    d ← get_db
    put_db (record d {
      outbox =
          d.outbox ++ record { id = id; event = e; occurred_at = now; published_at = none } ∷ [];
    })
    publish es
