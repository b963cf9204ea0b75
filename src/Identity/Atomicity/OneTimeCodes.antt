-- ===== src/Identity/Atomicity/OneTimeCodes.antt =====
-- The use cases with one-time codes (modules/identity/application/otp.go) write all or nothing.
use lynk.Base.{arith, ◌≡◌, Bytes}
use lynk.Effects.{World, Result, ok, err, attempt}
use lynk.Effects.Rules.{IsAtomic, LeavesDb, NeverFails}
use lynk.Identity.Domain.{User, Otp, OtpPurpose}
use lynk.Identity.Outside.{Outside}
use lynk.Identity.Database.{Db}
use lynk.Identity.Repositories.{create_otp}
use lynk.Identity.Ports.{reset, send_otp}
use lynk.Identity.Codes.{
  request_email_verification, verify_email, reset_password, issue, verify, check_code, compare_code,
  apply_reset, with_code, with_account, with_address,
}
use lynk.Identity.Atomicity.UseCases.{reading}

module _ (o : Outside) where
  LeavesDb-compare_code : (code : Bytes) (c : Otp) → LeavesDb (compare_code o code c)
  unfolding compare_code
  LeavesDb-compare_code code c = search reading depth 8

  LeavesDb-check_code : (code : Bytes) (r : Result Otp) → LeavesDb (check_code o code r)
  unfolding check_code
  LeavesDb-check_code code (err e) = search reading depth 8
  LeavesDb-check_code code (ok c) = LeavesDb-compare_code code c

  LeavesDb-verify : (id : Bytes) (p : OtpPurpose) (code : Bytes) → LeavesDb (verify o id p code)
  unfolding verify
  LeavesDb-verify id p code = search (reading, LeavesDb-check_code) depth 8

  create_otp-IsAtomic : (c : Otp) → IsAtomic (create_otp o c)
  unfolding create_otp
  create_otp-IsAtomic c = search reading depth 12

  issue-IsAtomic : (u : User) (p : OtpPurpose) → IsAtomic (issue o u p)
  unfolding issue
  issue-IsAtomic u p = search (reading, create_otp-IsAtomic) depth 12

  NeverFails-send_otp : (email code : Bytes) → NeverFails (send_otp email code)
  unfolding send_otp
  NeverFails-send_otp email code = record { at = λ w e h. cc }

  pub request_email_verification-IsAtomic :
      (id : Bytes) → IsAtomic (request_email_verification o id)
  unfolding request_email_verification
  request_email_verification-IsAtomic id =
      search (reading, issue-IsAtomic, NeverFails-send_otp) depth 12

  pub verify_email-IsAtomic : (id code : Bytes) → IsAtomic (verify_email o id code)
  unfolding verify_email
  verify_email-IsAtomic id code = search (reading, LeavesDb-verify) depth 12

  reset_succeeds : (id : Bytes) (w : World Db) → (reset o id w).0 ≡ ok tt
  unfolding reset attempt
  reset_succeeds id w = ground arith

  NeverFails-reset : (id : Bytes) → NeverFails (reset o id)
  NeverFails-reset id = record { at = λ w e h. cc (reset_succeeds id w) }

  apply_reset-IsAtomic :
      (email code password : Bytes) (c : Otp) (u : User)
      → IsAtomic (apply_reset o email code password c u)
  unfolding apply_reset
  apply_reset-IsAtomic email code password c u = search (reading, NeverFails-reset) depth 12

  with_code-IsAtomic :
      (email code password : Bytes) (u : User) (r : Result Otp)
      → IsAtomic (with_code o email code password u r)
  unfolding with_code
  with_code-IsAtomic email code password u (err e) = search reading depth 8
  with_code-IsAtomic email code password u (ok c) = apply_reset-IsAtomic email code password c u

  with_account-IsAtomic :
      (email code password : Bytes) (r : Result User)
      → IsAtomic (with_account o email code password r)
  unfolding with_account
  with_account-IsAtomic email code password (err e) = search reading depth 8
  with_account-IsAtomic email code password (ok u) =
      search (reading, with_code-IsAtomic, LeavesDb-verify) depth 8

  with_address-IsAtomic :
      (email code password : Bytes) (r : Result Bytes)
      → IsAtomic (with_address o email code password r)
  unfolding with_address
  with_address-IsAtomic email code password (err e) = search reading depth 8
  with_address-IsAtomic email code password (ok a) = search (reading, with_account-IsAtomic) depth 8

  pub reset_password-IsAtomic :
      (email code password : Bytes) → IsAtomic (reset_password o email code password)
  unfolding reset_password
  reset_password-IsAtomic email code password = search (reading, with_address-IsAtomic) depth 8
