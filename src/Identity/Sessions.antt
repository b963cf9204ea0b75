-- ===== src/Identity/Sessions.antt =====
-- Login, refresh and logout (modules/identity/application: token_service.go, login.go, refresh.go,
-- logout.go).
pub mod Throttle
pub mod Refusals
pub mod Rotation
mod Tests
use lynk.Base.{
  ℕ, ◌+◌, Bytes, Bool, true, false, List, [], ◌∷◌, Option, none, some, not, if◌then◌else◌,
}
use lynk.Effects.{
  World, App, Result, ok, err, Error, infrastructure, account_locked, account_disabled,
  invalid_credentials, refresh_token_invalid, pure, raise, lift, get_now, draw, attempt, handle,
  within_transaction, ◌>>=◌, ◌>>◌,
}
use lynk.Identity.Domain.{
  User, RefreshToken, new_user_id, new_refresh_token, token_is_active, can_sign_in,
}
use lynk.Identity.Outside.{Outside, new_email}
use lynk.Identity.Repositories.{
  Action, or_raise, new_id, get_user_by_email, get_user_by_id, create_session, get_session_by_hash,
  revoke,
}
use lynk.Identity.Ports.{allowed, record_failure, reset, blacklist}

pub record AccessToken : Type 0 where
  pub token : Bytes
  pub id : Bytes
  pub expires_at : ℕ

pub record TokenPair : Type 0 where
  pub access : AccessToken
  pub refresh_raw : Bytes

-- The lifetimes of the configuration.
pub record Lifetimes : Type 0 where
  pub access_ttl : ℕ
  pub refresh_ttl : ℕ

module _ (o : Outside) (t : Lifetimes) where
  -- Signer.IssueAccessToken of platform/jwt, with the claims of a user.
  unfoldable pub issue_access_token : Bytes → Bytes → Action AccessToken
  issue_access_token user_id role = do
    n ← draw
    now ← get_now
    let jti = o.hex_token n
    signed ← or_raise (o.sign user_id role jti (now + t.access_ttl)) infrastructure
    pure (record { token = signed; id = jti; expires_at = now + t.access_ttl })

  -- OpaqueTokens.Generate
  unfoldable pub generate : Action (Bytes × Bytes)
  generate = do n ← draw; pure (o.token n, o.hash_token (o.token n))

  unfoldable pub issue_pair : User → Action TokenPair
  issue_pair user = do
    access ← issue_access_token user.id user.role
    generated ← generate
    session_id ← new_id o
    now ← get_now
    create_session o (new_refresh_token session_id user.id generated.1 (now + t.refresh_ttl) now)
    pure (record { access = access; refresh_raw = generated.0 })

  -- What a failed attempt does, whatever the cause.
  abbrev pub refuse : {A : Type 0} → Bytes → Action A
  refuse email = do record_failure o email; raise invalid_credentials

  unfoldable pub enter : Bytes → User → Action (User × TokenPair)
  enter email user =
      if not (can_sign_in user)
      then raise account_disabled
      else (do reset o email; issued ← issue_pair user; pure (user, issued))

  -- `err != nil || !ok`
  abbrev pub verified : Option Bool → Bool
  verified none = false
  verified (some b) = b

  unfoldable pub check_password : Bytes → Bytes → User → Action (User × TokenPair)
  unfolding enter
  check_password email password user =
      if verified (o.verify_password user.password_hash password)
      then enter email user
      else refuse email

  -- On the result of `GetByEmail`.
  unfoldable pub with_account : Bytes → Bytes → Result User → Action (User × TokenPair)
  unfolding check_password
  with_account email password (err e) = refuse email
  with_account email password (ok user) = check_password email password user

  -- On the result of `vo.NewEmail`.
  unfoldable pub with_address : Bytes → Bytes → Result Bytes → Action (User × TokenPair)
  with_address email password (err e) = refuse email
  with_address email password (ok address) =
      handle (get_user_by_email o address) (with_account email password)

  unfoldable pub login : Bytes → Bytes → Action (User × TokenPair)
  unfolding with_address
  login email password = do
    may ← allowed o email
    if not may then raise account_locked else with_address email password (new_email o email)

  unfoldable pub rotate : RefreshToken → User → Action TokenPair
  rotate session user =
      if not (can_sign_in user)
      then raise account_disabled
      else within_transaction (do now ← get_now; revoke o session.id now; issue_pair user)

  -- On the result of `vo.NewUserID`.
  unfoldable pub resume : RefreshToken → Result Bytes → Action TokenPair
  unfolding rotate
  resume session (err e) = raise refresh_token_invalid
  resume session (ok user_id) = do user ← get_user_by_id o user_id; rotate session user

  unfoldable pub refresh : Bytes → Action TokenPair
  unfolding resume
  refresh refresh_raw = do
    session ← get_session_by_hash o (o.hash_token refresh_raw)
    now ← get_now
    if not (token_is_active now session)
        then raise refresh_token_invalid
        else resume session (new_user_id session.user_id)

  abbrev is_blank : Bytes → Bool
  is_blank [] = true
  is_blank (c ∷ s) = false

  unfoldable pub end_access : Bytes → Action (Unit {0})
  end_access access_token_id =
      if is_blank access_token_id then pure tt else blacklist access_token_id t.access_ttl

  -- An unknown session, and a failure to look it up, are passed over.
  -- On the result of `GetByHash`.
  unfoldable pub end_session : Bytes → Result RefreshToken → Action (Unit {0})
  unfolding end_access
  end_session access_token_id (err e) = end_access access_token_id
  end_session access_token_id (ok session) = do
    now ← get_now
    revoke o session.id now
    end_access access_token_id

  -- An unknown session, and a failure to look it up, are passed over.
  unfoldable pub logout : Bytes → Bytes → Action (Unit {0})
  unfolding end_session
  logout refresh_raw access_token_id =
      handle (get_session_by_hash o (o.hash_token refresh_raw)) (end_session access_token_id)
