-- ===== src/Identity/Sessions/Refusals.antt =====
-- `Login` refuses an unknown address and a wrong password alike (modules/identity/application/
-- login.go).
use lynk.Base.{◌≡◌, refl, Bytes, true, false, none, some, arith, bytes_eq, find?}
use lynk.Effects.{World, ok, err, invalid_credentials, invalid_email, calm, attempt, raise}
use lynk.Effects.Redis.{incr, expire}
use lynk.Identity.Database.{Db, UserRow}
use lynk.Identity.Outside.{Outside, new_email}
use lynk.Identity.Repositories.Reads.{
  IsSound, user_of, get_user_by_email_found, get_user_by_email_missing,
}
use lynk.Identity.Ports.{throttle_key, throttle_window, allowed, record_failure}
use lynk.Identity.Sessions.{Lifetimes, login, with_account, check_password, refuse, verified}

-- The one effect of a refusal: the counter behind the submitted identifier.
pub counted : Outside → Bytes → World Db → World Db
counted o email w = record (calm w) {
  redis =
      expire w.now (incr w.now w.redis (throttle_key o email)) (throttle_key o email)
        throttle_window;
}

-- Why a login may be refused.
pub data Refused (o : Outside) (email password : Bytes) (d : Db) : Type 0 where
  malformed : new_email o email ≡ err invalid_email → Refused o email password d
  unknown :
      (address : Bytes)
      → new_email o email ≡ ok address
      → find? (λ r. bytes_eq r.email address) d.users ≡ none
      → Refused o email password d
  wrong_password :
      (address : Bytes) (row : UserRow)
      → new_email o email ≡ ok address
      → find? (λ r. bytes_eq r.email address) d.users ≡ some row
      → IsSound o row
      → o.verify_password row.password_hash password ≡ some false
      → Refused o email password d
  unreadable_hash :
      (address : Bytes) (row : UserRow)
      → new_email o email ≡ ok address
      → find? (λ r. bytes_eq r.email address) d.users ≡ some row
      → IsSound o row
      → o.verify_password row.password_hash password ≡ none
      → Refused o email password d

module _ (o : Outside) (t : Lifetimes) (email password : Bytes) (w : World Db) where
  may_try : (allowed o email (calm w)).0 ≡ ok true → allowed o email (calm w) ≡ (ok true, calm w)
  unfolding allowed attempt
  may_try h = ground arith

  refuse_counts :
      {A : Type 0}
      → refuse o t {A = A} email (calm w) ≡ (err invalid_credentials, counted o email w)
  unfolding record_failure counted attempt raise
  refuse_counts = refl

  known_refused :
      (row : UserRow)
      → verified o t (o.verify_password row.password_hash password) ≡ false
      → check_password o t email password (user_of row) (calm w)
        ≡ (err invalid_credentials, counted o email w)
  unfolding check_password
  known_refused row v = rw v refuse_counts

  -- A malformed address, an unknown one, a wrong password and a stored hash that cannot be read are
  -- refused alike: the same error, and the same world afterwards, in which only the counter of the
  -- submitted identifier has moved. (The identifier is not locked out, and no call fails.)
  pub refusals_alike :
      (allowed o email (calm w)).0 ≡ ok true
      → Refused o email password w.db
      → login o t email password (calm w) ≡ (err invalid_credentials, counted o email w)
  unfolding login with_account
  refusals_alike may (malformed e) = rw (may_try may, e) refuse_counts
  refusals_alike may (unknown address e f) =
      rw (may_try may, e, get_user_by_email_missing o address w f) refuse_counts
  refusals_alike may (wrong_password address row e f s v) =
      rw (may_try may, e, get_user_by_email_found o address row w f s) (known_refused row (rw v))
  refusals_alike may (unreadable_hash address row e f s v) =
      rw (may_try may, e, get_user_by_email_found o address row w f s) (known_refused row (rw v))
