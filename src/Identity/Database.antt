-- ===== src/Identity/Database.antt =====
-- The tables of the identity module and what its statements do (sqlc/queries/identity.sql, called
-- by modules/identity/infrastructure). Ids are in the canonical text form. Foreign keys and the
-- payload's encoding are left out.
use lynk.Base.{
  ℕ, ◌+◌, Bytes, Bool, ◌&&◌, ◌||◌, List, [], ◌∷◌, Option, none, some, ltb, ◌==◌, bytes_eq,
  update_where, if◌then◌else◌,
}
use lynk.Identity.Domain.{
  Status, Event, User, RefreshToken, OtpPurpose, same_purpose, Otp, ApiKey, is_nil,
}

pub record UserRow : Type 0 where
  pub id : Bytes
  pub email : Bytes
  pub password_hash : Bytes
  pub full_name : Bytes
  pub role : Bytes
  pub status : Status
  pub version : ℕ
  pub created_at : ℕ
  pub updated_at : ℕ
  pub email_verified_at : Option ℕ

pub record OutboxRow : Type 0 where
  pub id : Bytes
  pub event : Event
  pub occurred_at : ℕ
  pub published_at : Option ℕ

pub record Db : Type 0 where
  pub users : List UserRow
  pub sessions : List RefreshToken
  pub otps : List Otp
  pub api_keys : List ApiKey
  pub outbox : List OutboxRow

abbrev pub row_of : User → UserRow
row_of u = record {
  id = u.id;
  email = u.email;
  password_hash = u.password_hash;
  full_name = u.full_name;
  role = u.role;
  status = u.status;
  version = u.version;
  created_at = u.created_at;
  updated_at = u.updated_at;
  email_verified_at = none;
}

-- The primary key and the unique index on the address.
abbrev pub clashes : User → UserRow → Bool
clashes u r = bytes_eq r.id u.id || bytes_eq r.email u.email

abbrev pub has_id_version : Bytes → ℕ → UserRow → Bool
has_id_version id version r = bytes_eq r.id id && r.version == version

abbrev pub written : User → UserRow → UserRow
written u r = record r {
  password_hash = u.password_hash;
  full_name = u.full_name;
  role = u.role;
  status = u.status;
  version = r.version + 1;
  updated_at = u.updated_at;
}

abbrev pub unverified : Bytes → UserRow → Bool
unverified id r = bytes_eq r.id id && is_nil r.email_verified_at

abbrev pub verified : ℕ → UserRow → UserRow
verified now r = record r {
  email_verified_at = some now;
  version = r.version + 1;
  updated_at = now;
}

abbrev pub revoked : ℕ → RefreshToken → RefreshToken
revoked now t = record t { revoked_at = some now }

-- RevokeRefreshToken
unfoldable pub revoke_session : Bytes → ℕ → List RefreshToken → List RefreshToken
revoke_session id now = update_where (λ t. bytes_eq t.id id && is_nil t.revoked_at) (revoked now)

-- RevokeAllRefreshTokensForUser
unfoldable pub revoke_sessions_of : Bytes → ℕ → List RefreshToken → List RefreshToken
revoke_sessions_of user_id now =
    update_where (λ t. bytes_eq t.user_id user_id && is_nil t.revoked_at) (revoked now)

abbrev pub is_live_code : Bytes → OtpPurpose → ℕ → Otp → Bool
is_live_code user_id purpose now c =
    bytes_eq c.user_id user_id
    && same_purpose c.purpose purpose
    && is_nil c.consumed_at
    && ltb now c.expires_at

-- Of two rows the newer one; of two equally old the one that stands first.
abbrev pub newer : Otp → Option Otp → Otp
newer c none = c
newer c (some d) = if ltb c.created_at d.created_at then d else c

-- GetActiveOTP: `ORDER BY created_at DESC LIMIT 1` of the live codes.
unfoldable pub newest_code : Bytes → OtpPurpose → ℕ → List Otp → Option Otp
newest_code user_id purpose now [] = none
newest_code user_id purpose now (c ∷ cs) =
    let rest = newest_code user_id purpose now cs in
    if is_live_code user_id purpose now c then some (newer c rest) else rest

-- ConsumeOTP
unfoldable pub consume_code : Bytes → ℕ → List Otp → List Otp
consume_code id now =
    update_where (λ c. bytes_eq c.id id && is_nil c.consumed_at)
      (λ c. record c { consumed_at = some now })

abbrev pub is_revocable : Bytes → Bytes → ApiKey → Bool
is_revocable id user_id k = bytes_eq k.id id && bytes_eq k.user_id user_id && is_nil k.revoked_at

-- RevokeAPIKey
unfoldable pub revoke_key : Bytes → Bytes → ℕ → List ApiKey → List ApiKey
revoke_key id user_id now =
    update_where (is_revocable id user_id) (λ k. record k { revoked_at = some now })

-- ListAPIKeysForUser: an insertion sort on `created_at DESC` of the owner's rows.
unfoldable pub insert_newest : ApiKey → List ApiKey → List ApiKey
insert_newest k [] = k ∷ []
insert_newest k (j ∷ js) =
    if ltb k.created_at j.created_at then j ∷ insert_newest k js else k ∷ j ∷ js

unfoldable pub keys_of : Bytes → List ApiKey → List ApiKey
unfolding insert_newest
keys_of user_id [] = []
keys_of user_id (k ∷ ks) =
    let rest = keys_of user_id ks in
    if bytes_eq k.user_id user_id then insert_newest k rest else rest
