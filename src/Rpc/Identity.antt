-- ===== src/Rpc/Identity.antt =====
-- The identity service on the wire (modules/identity/adapter/grpc/handler.go). The codec of the
-- messages is generated code; a call is its method with the fields of its request.
pub mod Callers
pub mod Refusals
use lynk.Base.{
  ℕ, ◌/◌, ◌^◌, Bytes, codes, Bool, not, ◌&&◌, List, Option, map, bytes_eq, if◌then◌else◌,
}
use lynk.Effects.{World, App, Result, ok, err, Error}
use lynk.Authz.{Principal}
use lynk.Identity.Database.{Db}
use lynk.Identity.Domain.{User, ApiKey, is_nil}
use lynk.Identity.Outside.{Outside}
use lynk.Identity.Sessions.{Lifetimes, TokenPair, login, refresh, logout}
use lynk.Identity.Accounts.{register, get_profile, change_password_of, set_user_role}
use lynk.Identity.Codes.{
  request_password_reset, reset_password, request_email_verification, verify_email,
}
use lynk.Identity.ApiKeys.{create, list, revoke, validate}
use lynk.Rpc.{
  Kind, AppError, new, wrap, Failure, app, Outcome, reply, failed, Rpc, Context, Unary,
  with_principal,
}

-- The requests of identity.v1.IdentityService.
pub data Call : Type 0 where
  register_call : (email password full_name : Bytes) → Call
  login_call : (email password : Bytes) → Call
  refresh_call : (refresh_token : Bytes) → Call
  logout_call : (refresh_token access_token_id : Bytes) → Call
  get_profile_call : Call
  change_password_call : (current_password new_password : Bytes) → Call
  set_user_role_call : (user_id role : Bytes) → Call
  request_password_reset_call : (email : Bytes) → Call
  reset_password_call : (email code new_password : Bytes) → Call
  request_email_verification_call : Call
  verify_email_call : (code : Bytes) → Call
  create_api_key_call : (name : Bytes) → Call
  list_api_keys_call : Call
  revoke_api_key_call : (id : Bytes) → Call
  validate_api_key_call : (key : Bytes) → Call

pub record ProtoUser : Type 0 where
  pub id : Bytes
  pub email : Bytes
  pub full_name : Bytes
  pub role : Bytes

pub record ProtoApiKey : Type 0 where
  pub id : Bytes
  pub name : Bytes
  pub prefix : Bytes
  pub created_at : ℕ
  pub revoked : Bool

pub data Answer : Type 0 where
  user_answer : ProtoUser → Answer
  login_answer :
      (access_token : Bytes) → (expires_at : ℕ) → (refresh_token : Bytes) → ProtoUser → Answer
  refresh_answer : (access_token : Bytes) → (expires_at : ℕ) → (refresh_token : Bytes) → Answer
  key_answer : ProtoApiKey → (secret : Bytes) → Answer
  keys_answer : List ProtoApiKey → Answer
  holder_answer : (user_id role : Bytes) → Answer
  done : Answer

abbrev pub to_proto_user : User → ProtoUser
to_proto_user u = record { id = u.id; email = u.email; full_name = u.full_name; role = u.role }

-- `Unix()`
abbrev pub unix : ℕ → ℕ
unix t = t / 10 ^ 9

abbrev pub to_proto_api_key : ApiKey → ProtoApiKey
to_proto_api_key k = record {
  id = k.id;
  name = k.name;
  prefix = k.prefix;
  created_at = unix k.created_at;
  revoked = not (is_nil k.revoked_at);
}

abbrev refresh_pair : TokenPair → Answer
refresh_pair p = refresh_answer p.access.token (unix p.access.expires_at) p.refresh_raw

abbrev login_pair : User × TokenPair → Answer
login_pair (u, p) =
    login_answer p.access.token (unix p.access.expires_at) p.refresh_raw (to_proto_user u)

-- The sentinels of the other modules do not come up here, and would be internal.
unfoldable pub classify : Error → AppError
classify Error.email_taken =
    wrap Error.email_taken Kind.already_exists (codes "email_taken")
      (codes "email already registered")
classify Error.invalid_credentials =
    wrap Error.invalid_credentials Kind.unauthenticated (codes "invalid_credentials")
      (codes "invalid credentials")
classify Error.refresh_token_invalid =
    wrap Error.refresh_token_invalid Kind.unauthenticated (codes "invalid_credentials")
      (codes "invalid credentials")
classify Error.invalid_otp =
    wrap Error.invalid_otp Kind.unauthenticated (codes "invalid_code")
      (codes "invalid or expired code")
classify Error.api_key_not_found =
    wrap Error.api_key_not_found Kind.unauthenticated (codes "invalid_api_key")
      (codes "invalid api key")
classify Error.account_locked =
    wrap Error.account_locked Kind.rate_limited (codes "account_locked")
      (codes "too many attempts, try again later")
classify Error.account_disabled =
    wrap Error.account_disabled Kind.permission_denied (codes "account_disabled")
      (codes "account disabled")
classify Error.user_not_found =
    wrap Error.user_not_found Kind.not_found (codes "user_not_found") (codes "user not found")
classify Error.concurrent_update =
    wrap Error.concurrent_update Kind.conflict (codes "user_conflict")
      (codes "account was modified concurrently, retry")
classify Error.invalid_email =
    wrap Error.invalid_email Kind.invalid_input (codes "invalid_input")
      (codes "invalid email address")
classify Error.invalid_user_id =
    wrap Error.invalid_user_id Kind.invalid_input (codes "invalid_input") (codes "invalid user id")
classify Error.missing_name =
    wrap Error.missing_name Kind.invalid_input (codes "invalid_input")
      (codes "user requires a name")
classify Error.invalid_role =
    wrap Error.invalid_role Kind.invalid_input (codes "invalid_input")
      (codes "role must be 1-50 characters")
classify Error.corrupt_user_email =
    wrap Error.corrupt_user_email Kind.invalid_input (codes "invalid_input")
      (codes "identity: corrupt user email: invalid email address")
classify Error.corrupt_user_id =
    wrap Error.corrupt_user_id Kind.invalid_input (codes "invalid_input")
      (codes "identity: corrupt user id: invalid user id")
classify e = wrap e Kind.internal (codes "internal") (codes "internal error")

-- `if err != nil { return nil, classify(err) }`, and the response otherwise.
unfoldable pub conclude :
    {A : Type 0} → (A → Answer) → Result A × World Db → Outcome Answer × World Db
unfolding classify
conclude f (ok a, w) = (reply (f a), w)
conclude f (err e, w) = (failed (app (classify e)), w)

abbrev pub answering : {A : Type 0} → App Db A → (A → Answer) → Rpc Db Answer
answering m f w = conclude f (m w)

abbrev pub is_admin : Principal → Bool
is_admin p =
    not (not (bytes_eq p.role (codes "admin")) && not (bytes_eq p.token_type (codes "admin")))

abbrev pub admin_required : AppError
admin_required = new Kind.permission_denied (codes "admin_required") (codes "admin access required")

module _ (o : Outside) (t : Lifetimes) where
  -- The admin check of SetUserRole.
  unfoldable pub role_setter : Bytes → Bytes → Principal → Rpc Db Answer
  role_setter user_id role p w =
      if is_admin p
      then answering (set_user_role o user_id role) (λ u. user_answer (to_proto_user u)) w
      else (failed (app admin_required), w)

  -- The method of the service that a call names, for the principal of its context.
  unfoldable pub handle_call : Unary Db Call Answer
  unfolding conclude role_setter with_principal
  handle_call ctx (register_call email password full_name) =
      answering (register o email password full_name) λ u. user_answer (to_proto_user u)
  handle_call ctx (login_call email password) = answering (login o t email password) login_pair
  handle_call ctx (refresh_call refresh_token) = answering (refresh o t refresh_token) refresh_pair
  handle_call ctx (logout_call refresh_token access_token_id) =
      answering (logout o t refresh_token access_token_id) λ _. done
  handle_call ctx get_profile_call =
      with_principal ctx.principal
        λ p. answering (get_profile o p.user_id) λ u. user_answer (to_proto_user u)
  handle_call ctx (change_password_call current_password new_password) =
      with_principal ctx.principal
        λ p. answering (change_password_of o p.user_id current_password new_password) λ _. done
  handle_call ctx (set_user_role_call user_id role) =
      with_principal ctx.principal (role_setter user_id role)
  handle_call ctx (request_password_reset_call email) =
      answering (request_password_reset o email) λ _. done
  handle_call ctx (reset_password_call email code new_password) =
      answering (reset_password o email code new_password) λ _. done
  handle_call ctx request_email_verification_call =
      with_principal ctx.principal λ p. answering (request_email_verification o p.user_id) λ _. done
  handle_call ctx (verify_email_call code) =
      with_principal ctx.principal λ p. answering (verify_email o p.user_id code) λ _. done
  handle_call ctx (create_api_key_call name) =
      with_principal ctx.principal
        λ p. answering (create o t p.user_id name) λ k. key_answer (to_proto_api_key k.0) k.1
  handle_call ctx list_api_keys_call =
      with_principal ctx.principal
        λ p. answering (list o t p.user_id) λ ks. keys_answer (map to_proto_api_key ks)
  handle_call ctx (revoke_api_key_call id) =
      with_principal ctx.principal λ p. answering (revoke o t p.user_id id) λ _. done
  handle_call ctx (validate_api_key_call key) =
      answering (validate o t key) λ h. holder_answer h.0 h.1
