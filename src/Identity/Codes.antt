-- ===== src/Identity/Codes.antt =====
-- One-time codes: password reset and address verification (modules/identity/application/otp.go).
use lynk.Base.{ℕ, ◌+◌, Bytes, codes, [], ◌∷◌, ◌++◌, not, bytes_eq, if◌then◌else◌}
use lynk.Effects.{
  Result, ok, err, Error, account_locked, invalid_otp, pure, raise, get_now, draw, minutes, handle,
  within_transaction, ◌>>=◌, ◌>>◌,
}
use lynk.Identity.Domain.{
  User, Otp, OtpPurpose, password_reset, email_verify, new_user_id, new_otp, change_password,
  pull_events, password_reset_requested, email_verified,
}
use lynk.Identity.Outside.{Outside, new_email}
use lynk.Identity.Repositories.{
  Action, new_id, get_user_by_email, get_user_by_id, update_user, mark_email_verified, create_otp,
  get_active_otp, consume_otp, revoke_all_for_user, publish,
}
use lynk.Identity.Ports.{allowed, record_failure, reset, send_otp}
use lynk.Identity.Accounts.{hash_password, or_unknown}

abbrev pub otp_ttl : ℕ
otp_ttl = minutes 15

abbrev pub throttle_id : Bytes → Bytes
throttle_id email = codes "otp:" ++ email

module _ (o : Outside) where
  unfoldable pub issue : User → OtpPurpose → Action Bytes
  issue user purpose = do
    n ← draw
    otp_id ← new_id o
    now ← get_now
    create_otp o (new_otp otp_id user.id purpose (o.hash_token (o.code n)) (now + otp_ttl) now)
    pure (o.code n)

  unfoldable pub compare_code : Bytes → Otp → Action Otp
  compare_code code otp =
      if bytes_eq (o.hash_token code) otp.code_hash then pure otp else raise invalid_otp

  -- On the result of `GetActive`.
  unfoldable pub check_code : Bytes → Result Otp → Action Otp
  unfolding compare_code
  check_code code (err e) = raise invalid_otp
  check_code code (ok otp) = compare_code code otp

  unfoldable pub verify : Bytes → OtpPurpose → Bytes → Action Otp
  unfolding check_code
  verify user_id purpose code = do
    now ← get_now
    handle (get_active_otp o user_id purpose now) (check_code code)

  unfoldable pub send_reset : Bytes → User → Action (Unit {0})
  send_reset address user = do
    code ← issue user password_reset
    send_otp address code
    now ← get_now
    publish o (password_reset_requested user.id now ∷ [])

  unfoldable pub send_if_known : Bytes → Result User → Action (Unit {0})
  unfolding send_reset
  send_if_known address (err e) = pure tt
  send_if_known address (ok user) = send_reset address user

  -- Unknown and malformed addresses succeed too, and do nothing.
  unfoldable pub send_if_valid : Result Bytes → Action (Unit {0})
  send_if_valid (err e) = pure tt
  send_if_valid (ok address) = handle (get_user_by_email o address) (send_if_known address)

  unfoldable pub request_password_reset : Bytes → Action (Unit {0})
  unfolding send_if_valid
  request_password_reset email = send_if_valid (new_email o email)

  -- Counts a failed attempt and reports it.
  abbrev pub refuse : {A : Type 0} → Bytes → Error → Action A
  refuse email e = do record_failure o (throttle_id email); raise e

  unfoldable pub apply_reset : Bytes → Bytes → Bytes → Otp → User → Action (Unit {0})
  apply_reset email code new_password otp user = do
    new_hash ← hash_password o new_password
    now ← get_now
    let changed = change_password new_hash now user
    within_transaction (do
      consume_otp o otp.id now
      update_user o changed
      revoke_all_for_user o changed.id now
      publish o (pull_events changed).0)
    reset o (throttle_id email)

  -- On the results of `verify`, of `GetByEmail` and of `vo.NewEmail`.
  unfoldable pub with_code : Bytes → Bytes → Bytes → User → Result Otp → Action (Unit {0})
  unfolding apply_reset
  with_code email code new_password user (err e) = refuse email e
  with_code email code new_password user (ok otp) = apply_reset email code new_password otp user

  unfoldable pub with_account : Bytes → Bytes → Bytes → Result User → Action (Unit {0})
  unfolding with_code
  with_account email code new_password (err e) = refuse email invalid_otp
  with_account email code new_password (ok user) =
      handle (verify user.id password_reset code) (with_code email code new_password user)

  unfoldable pub with_address : Bytes → Bytes → Bytes → Result Bytes → Action (Unit {0})
  with_address email code new_password (err e) = refuse email invalid_otp
  with_address email code new_password (ok address) =
      handle (get_user_by_email o address) (with_account email code new_password)

  unfoldable pub reset_password : Bytes → Bytes → Bytes → Action (Unit {0})
  unfolding with_address
  reset_password email code new_password = do
    may ← allowed o (throttle_id email)
    if not may
        then raise account_locked
        else with_address email code new_password (new_email o email)

  unfoldable pub request_email_verification : Bytes → Action (Unit {0})
  request_email_verification raw_id = do
    id ← or_unknown (new_user_id raw_id)
    user ← get_user_by_id o id
    code ← issue user email_verify
    send_otp user.email code

  -- No throttle here: only the caller's own account is concerned.
  unfoldable pub verify_email : Bytes → Bytes → Action (Unit {0})
  verify_email raw_id code = do
    id ← or_unknown (new_user_id raw_id)
    user ← get_user_by_id o id
    otp ← verify user.id email_verify code
    now ← get_now
    within_transaction (do
      consume_otp o otp.id now
      mark_email_verified o user.id now
      publish o (email_verified user.id now ∷ []))
