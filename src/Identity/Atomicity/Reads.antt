-- ===== src/Identity/Atomicity/Reads.antt =====
-- The actions that leave the database alone: the reads of the repositories and everything in Redis.
use lynk.Base.{arith, ◌≡◌, ℕ, Bytes, Option, none, some}
use lynk.Effects.{World, Result, Error, ok, err, attempt}
use lynk.Effects.Rules.{LeavesDb, LeavesDb-pure, LeavesDb-raise, leaves_rules}
use lynk.Identity.Domain.{OtpPurpose}
use lynk.Identity.Outside.{Outside}
use lynk.Identity.Database.{UserRow, Db}
use lynk.Identity.Repositories.{
  or_raise, or_corrupt, new_id, user_from_row, get_user_by_email, get_user_by_id,
  get_session_by_hash, get_active_otp, get_api_key_by_hash,
}
use lynk.Identity.Ports.{allowed, record_failure, reset}
use lynk.Identity.Accounts.{or_unknown, hash_password}

pub LeavesDb-or_raise : {A : Type 0} (a : Option A) (e : Error) → LeavesDb (or_raise a e)
LeavesDb-or_raise none e = LeavesDb-raise e
LeavesDb-or_raise (some a) e = LeavesDb-pure a

LeavesDb-or_corrupt : {A : Type 0} (e : Error) (r : Result A) → LeavesDb (or_corrupt e r)
LeavesDb-or_corrupt e (ok a) = LeavesDb-pure a
LeavesDb-or_corrupt e (err cause) = LeavesDb-raise _

pub LeavesDb-or_unknown : (r : Result Bytes) → LeavesDb (or_unknown r)
LeavesDb-or_unknown (ok a) = LeavesDb-pure a
LeavesDb-or_unknown (err e) = LeavesDb-raise _

ruleset reading = (leaves_rules, LeavesDb-or_raise, LeavesDb-or_corrupt)

module _ (o : Outside) where
  pub LeavesDb-new_id : LeavesDb (new_id o)
  LeavesDb-new_id = search reading

  LeavesDb-user_from_row : (r : UserRow) → LeavesDb (user_from_row o r)
  LeavesDb-user_from_row r = search reading depth 8

  pub LeavesDb-get_user_by_email : (email : Bytes) → LeavesDb (get_user_by_email o email)
  unfolding get_user_by_email
  LeavesDb-get_user_by_email email = search (reading, LeavesDb-user_from_row) depth 8

  pub LeavesDb-get_user_by_id : (id : Bytes) → LeavesDb (get_user_by_id o id)
  unfolding get_user_by_id
  LeavesDb-get_user_by_id id = search (reading, LeavesDb-user_from_row) depth 8

  pub LeavesDb-get_session_by_hash : (hash : Bytes) → LeavesDb (get_session_by_hash o hash)
  unfolding get_session_by_hash
  LeavesDb-get_session_by_hash hash = search reading depth 8

  pub LeavesDb-get_active_otp :
      (id : Bytes) (p : OtpPurpose) (now : ℕ) → LeavesDb (get_active_otp o id p now)
  unfolding get_active_otp
  LeavesDb-get_active_otp id p now = search reading depth 8

  pub LeavesDb-get_api_key_by_hash : (hash : Bytes) → LeavesDb (get_api_key_by_hash o hash)
  unfolding get_api_key_by_hash
  LeavesDb-get_api_key_by_hash hash = search reading depth 8

  pub LeavesDb-hash_password : (password : Bytes) → LeavesDb (hash_password o password)
  unfolding hash_password
  LeavesDb-hash_password password = search reading

module _ (o : Outside) where
  allowed_leaves :
      (id : Bytes) (w : World Db)
      → ((allowed o id w).1.db ≡ w.db) × ((allowed o id w).1.in_tx ≡ w.in_tx)
  unfolding allowed attempt
  allowed_leaves id w = ground arith

  pub LeavesDb-allowed : (id : Bytes) → LeavesDb (allowed o id)
  LeavesDb-allowed id = record {
    db = λ w. (allowed_leaves id w).0;
    tx = λ w. (allowed_leaves id w).1;
  }

  record_failure_leaves :
      (id : Bytes) (w : World Db)
      → ((record_failure o id w).1.db ≡ w.db) × ((record_failure o id w).1.in_tx ≡ w.in_tx)
  unfolding record_failure attempt
  record_failure_leaves id w = ground arith

  pub LeavesDb-record_failure : (id : Bytes) → LeavesDb (record_failure o id)
  LeavesDb-record_failure id = record {
    db = λ w. (record_failure_leaves id w).0;
    tx = λ w. (record_failure_leaves id w).1;
  }

  reset_leaves :
      (id : Bytes) (w : World Db)
      → ((reset o id w).1.db ≡ w.db) × ((reset o id w).1.in_tx ≡ w.in_tx)
  unfolding reset attempt
  reset_leaves id w = ground arith

  pub LeavesDb-reset : (id : Bytes) → LeavesDb (reset o id)
  LeavesDb-reset id = record { db = λ w. (reset_leaves id w).0; tx = λ w. (reset_leaves id w).1 }
