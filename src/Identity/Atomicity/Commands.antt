-- ===== src/Identity/Atomicity/Commands.antt =====
-- The use cases of modules/identity/application that write in one statement or one transaction.
use lynk.Base.{◌≡◌, Bytes, false}
use lynk.Effects.{World, Error, err, pure, ◌>>◌}
use lynk.Effects.Rules.{IsAtomic, atomic_rules}
use lynk.Identity.Outside.{Outside}
use lynk.Identity.Database.{Db}
use lynk.Identity.Repositories.{Action}
use lynk.Identity.Sessions.{Lifetimes, login, refresh}
use lynk.Identity.Accounts.{register, change_password_of, set_user_role}
use lynk.Identity.Codes.{request_email_verification, verify_email, reset_password}
use lynk.Identity.ApiKeys.{create}
use lynk.Identity.Atomicity.UseCases.{
  register-IsAtomic, change_password-IsAtomic, set_user_role-IsAtomic, refresh-IsAtomic,
  login-IsAtomic, create-IsAtomic,
}
use lynk.Identity.Atomicity.OneTimeCodes.{
  request_email_verification-IsAtomic, verify_email-IsAtomic, reset_password-IsAtomic,
}

pub data Command : Type 0 where
  registration : (email password full_name : Bytes) → Command
  sign_in : (email password : Bytes) → Command
  rotation : (refresh_raw : Bytes) → Command
  password_change : (user_id current_password new_password : Bytes) → Command
  role_change : (user_id role : Bytes) → Command
  verification_request : (user_id : Bytes) → Command
  verification : (user_id code : Bytes) → Command
  reset_with_code : (email code new_password : Bytes) → Command
  key_creation : (user_id name : Bytes) → Command

module _ (o : Outside) (t : Lifetimes) where
  -- The command's error, if it fails, and its writes; the result of a success is left out.
  unfoldable pub execute : Command → Action (Unit {0})
  execute (registration email password full_name) = do register o email password full_name; pure tt
  execute (sign_in email password) = do login o t email password; pure tt
  execute (rotation refresh_raw) = do refresh o t refresh_raw; pure tt
  execute (password_change user_id current_password new_password) =
      change_password_of o user_id current_password new_password
  execute (role_change user_id role) = do set_user_role o user_id role; pure tt
  execute (verification_request user_id) = request_email_verification o user_id
  execute (verification user_id code) = verify_email o user_id code
  execute (reset_with_code email code new_password) = reset_password o email code new_password
  execute (key_creation user_id name) = do create o t user_id name; pure tt

  execute-IsAtomic : (c : Command) → IsAtomic (execute c)
  unfolding execute
  execute-IsAtomic (registration email password full_name) =
      search (atomic_rules, register-IsAtomic)
  execute-IsAtomic (sign_in email password) = search (atomic_rules, login-IsAtomic)
  execute-IsAtomic (rotation refresh_raw) = search (atomic_rules, refresh-IsAtomic)
  execute-IsAtomic (password_change user_id current_password new_password) =
      change_password-IsAtomic o user_id current_password new_password
  execute-IsAtomic (role_change user_id role) = search (atomic_rules, set_user_role-IsAtomic)
  execute-IsAtomic (verification_request user_id) = request_email_verification-IsAtomic o user_id
  execute-IsAtomic (verification user_id code) = verify_email-IsAtomic o user_id code
  execute-IsAtomic (reset_with_code email code new_password) =
      reset_password-IsAtomic o email code new_password
  execute-IsAtomic (key_creation user_id name) = search (atomic_rules, create-IsAtomic)

  -- Whichever calls to the database, to Redis and to the entropy source fail, a registration, login,
  -- refresh, change of password or role, request for a verification code, verification, password
  -- reset with a code or creation of an API key that returns an error leaves the database as it
  -- was. (No transaction is open when it starts.)
  pub execute_atomic :
      (c : Command) (w : World Db) (e : Error)
      → w.in_tx ≡ false
      → (execute c w).0 ≡ err e
      → (execute c w).1.db ≡ w.db
  execute_atomic c w e closed failed = (execute-IsAtomic c).at w closed e failed
