-- ===== src/Identity/Domain.antt =====
-- The aggregates and value objects of modules/identity/domain. A method that changes its receiver
-- returns the new value; times are nanoseconds.
use lynk.Base.{
  ℕ, Bytes, codes, Bool, true, false, ◌&&◌, ◌||◌, List, [], ◌∷◌, ◌++◌, Option, none, some, ltb, not,
  ◌==◌, length, get_elem?, if◌then◌else◌,
}
use lynk.Effects.{Result, ok, err, missing_name, invalid_role, invalid_user_id}

pub data Status : Type 0 where
  active disabled : Status

pub data Event : Type 0 where
  user_registered : (user_id email full_name role : Bytes) → ℕ → Event
  password_changed : (user_id : Bytes) → ℕ → Event
  role_changed : (user_id role : Bytes) → ℕ → Event
  password_reset_requested : (user_id : Bytes) → ℕ → Event
  email_verified : (user_id : Bytes) → ℕ → Event
  api_key_created : (user_id key_id name : Bytes) → ℕ → Event
  api_key_revoked : (user_id key_id : Bytes) → ℕ → Event

-- `Subject()`, the routing key.
pub subject : Event → Bytes
subject (user_registered id email name role t) = codes "identity.user.registered"
subject (password_changed id t) = codes "identity.user.password_changed"
subject (role_changed id role t) = codes "identity.user.role_changed"
subject (password_reset_requested id t) = codes "identity.user.password_reset_requested"
subject (email_verified id t) = codes "identity.user.email_verified"
subject (api_key_created id key name t) = codes "identity.apikey.created"
subject (api_key_revoked id key t) = codes "identity.apikey.revoked"

-- `raw[i] == '-'`, for an index that the length test has shown to be in range.
abbrev dash_at : Bytes → ℕ → Bool
dash_at raw i = elim (get_elem? raw i) [ none ↦ false | some c ↦ c == b'-' ]

-- vo.NewUserID: the shape of a canonical UUID.
unfoldable pub new_user_id : Bytes → Result Bytes
new_user_id raw =
    if not (length raw == 36)
      || not (dash_at raw 8)
      || not (dash_at raw 13)
      || not (dash_at raw 18)
      || not (dash_at raw 23)
    then err invalid_user_id
    else ok raw

pub record User : Type 0 where
  pub id : Bytes
  pub email : Bytes
  pub password_hash : Bytes
  pub full_name : Bytes
  pub role : Bytes
  pub status : Status
  pub version : ℕ
  pub created_at : ℕ
  pub updated_at : ℕ
  pub events : List Event

abbrev pub is_empty : Bytes → Bool
is_empty [] = true
is_empty (c ∷ s) = false

unfoldable pub new_user : (id email password_hash full_name : Bytes) → ℕ → Result User
new_user id email password_hash full_name now =
    if is_empty full_name
    then err missing_name
    else ok (record {
      id = id;
      email = email;
      password_hash = password_hash;
      full_name = full_name;
      role = codes "user";
      status = active;
      version = 1;
      created_at = now;
      updated_at = now;
      events = user_registered id email full_name (codes "user") now ∷ [];
    })

abbrev pub can_sign_in : User → Bool
can_sign_in u = elim u.status [ active ↦ true | disabled ↦ false ]

unfoldable pub change_password : Bytes → ℕ → User → User
change_password new_hash now u = record u {
  password_hash = new_hash;
  updated_at = now;
  events = u.events ++ password_changed u.id now ∷ [];
}

unfoldable pub change_role : Bytes → ℕ → User → Result User
change_role role now u =
    if is_empty role || ltb 50 (length role)
    then err invalid_role
    else ok (record u {
      role = role;
      updated_at = now;
      events = u.events ++ role_changed u.id role now ∷ [];
    })

unfoldable pub pull_events : User → List Event × User
pull_events u = (u.events, record u { events = [] })

pub record RefreshToken : Type 0 where
  pub id : Bytes
  pub user_id : Bytes
  pub token_hash : Bytes
  pub expires_at : ℕ
  pub revoked_at : Option ℕ
  pub created_at : ℕ

abbrev pub new_refresh_token : (id user_id token_hash : Bytes) → ℕ → ℕ → RefreshToken
new_refresh_token id user_id token_hash expires_at now = record {
  id = id;
  user_id = user_id;
  token_hash = token_hash;
  expires_at = expires_at;
  revoked_at = none;
  created_at = now;
}

abbrev pub is_nil : Option ℕ → Bool
is_nil none = true
is_nil (some t) = false

unfoldable pub token_is_active : ℕ → RefreshToken → Bool
token_is_active now t = is_nil t.revoked_at && ltb now t.expires_at

pub data OtpPurpose : Type 0 where
  password_reset email_verify : OtpPurpose

abbrev pub same_purpose : OtpPurpose → OtpPurpose → Bool
same_purpose password_reset password_reset = true
same_purpose email_verify email_verify = true
same_purpose _ _ = false

pub record Otp : Type 0 where
  pub id : Bytes
  pub user_id : Bytes
  pub purpose : OtpPurpose
  pub code_hash : Bytes
  pub expires_at : ℕ
  pub consumed_at : Option ℕ
  pub created_at : ℕ

abbrev pub new_otp : (id user_id : Bytes) → OtpPurpose → Bytes → ℕ → ℕ → Otp
new_otp id user_id purpose code_hash expires_at now = record {
  id = id;
  user_id = user_id;
  purpose = purpose;
  code_hash = code_hash;
  expires_at = expires_at;
  consumed_at = none;
  created_at = now;
}

pub record ApiKey : Type 0 where
  pub id : Bytes
  pub user_id : Bytes
  pub name : Bytes
  pub key_hash : Bytes
  pub prefix : Bytes
  pub created_at : ℕ
  pub revoked_at : Option ℕ

abbrev pub new_api_key : (id user_id name key_hash prefix : Bytes) → ℕ → ApiKey
new_api_key id user_id name key_hash prefix now = record {
  id = id;
  user_id = user_id;
  name = name;
  key_hash = key_hash;
  prefix = prefix;
  created_at = now;
  revoked_at = none;
}

abbrev pub key_is_active : ApiKey → Bool
key_is_active k = is_nil k.revoked_at
