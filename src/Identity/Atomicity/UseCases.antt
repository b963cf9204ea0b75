-- ===== src/Identity/Atomicity/UseCases.antt =====
-- A use case of modules/identity/application that fails has written nothing.
use lynk.Base.{Bytes}
use lynk.Effects.{Result, ok, err}
use lynk.Effects.Rules.{
  IsAtomic, LeavesDb, NeverFails, IsAtomic-LeavesDb, IsAtomic-handle, atomic_rules, LeavesDb-lift,
}
use lynk.Identity.Domain.{User, RefreshToken}
use lynk.Identity.Outside.{Outside}
use lynk.Identity.Repositories.{create_session}
use lynk.Identity.Sessions.{
  Lifetimes, login, refresh, rotate, resume, issue_pair, generate, issue_access_token, enter,
  check_password, with_account, with_address,
}
use lynk.Identity.Accounts.{register, change_password_of, set_user_role}
use lynk.Identity.ApiKeys.{create}
use lynk.Identity.Atomicity.Reads.{
  LeavesDb-or_unknown, LeavesDb-or_raise, LeavesDb-new_id, LeavesDb-get_user_by_email,
  LeavesDb-get_user_by_id, LeavesDb-get_session_by_hash, LeavesDb-get_active_otp,
  LeavesDb-get_api_key_by_hash, LeavesDb-hash_password, LeavesDb-allowed, LeavesDb-record_failure,
  LeavesDb-reset,
}

pub ruleset reading = (
  atomic_rules, LeavesDb-or_unknown, LeavesDb-new_id, LeavesDb-get_user_by_email,
  LeavesDb-get_user_by_id, LeavesDb-get_session_by_hash, LeavesDb-hash_password, LeavesDb-or_raise,
  LeavesDb-get_active_otp, LeavesDb-allowed, LeavesDb-record_failure, LeavesDb-reset,
)

module _ (o : Outside) where
  pub register-IsAtomic : (email password name : Bytes) → IsAtomic (register o email password name)
  unfolding register
  register-IsAtomic email password name = search reading depth 12

  pub change_password-IsAtomic : (id old new : Bytes) → IsAtomic (change_password_of o id old new)
  unfolding change_password_of
  change_password-IsAtomic id old new = search reading depth 12

  pub set_user_role-IsAtomic : (id role : Bytes) → IsAtomic (set_user_role o id role)
  unfolding set_user_role
  set_user_role-IsAtomic id role = search reading depth 12

  module _ (t : Lifetimes) where
    rotate-IsAtomic : (s : RefreshToken) (u : User) → IsAtomic (rotate o t s u)
    unfolding rotate
    rotate-IsAtomic s u = search reading depth 12

    resume-IsAtomic : (s : RefreshToken) (r : Result Bytes) → IsAtomic (resume o t s r)
    unfolding resume
    resume-IsAtomic s (err e) = search reading
    resume-IsAtomic s (ok id) = search (reading, rotate-IsAtomic) depth 8

    pub refresh-IsAtomic : (raw : Bytes) → IsAtomic (refresh o t raw)
    unfolding refresh
    refresh-IsAtomic raw = search (reading, resume-IsAtomic) depth 8

    create_session-IsAtomic : (s : RefreshToken) → IsAtomic (create_session o s)
    unfolding create_session
    create_session-IsAtomic s = search reading depth 12

    LeavesDb-issue_access_token : (id role : Bytes) → LeavesDb (issue_access_token o t id role)
    unfolding issue_access_token
    LeavesDb-issue_access_token id role = search reading depth 12

    LeavesDb-generate : LeavesDb (generate o t)
    unfolding generate
    LeavesDb-generate = search reading depth 12

    issue_pair-IsAtomic : (u : User) → IsAtomic (issue_pair o t u)
    unfolding issue_pair
    issue_pair-IsAtomic u =
        search (reading, create_session-IsAtomic, LeavesDb-issue_access_token, LeavesDb-generate)
          depth 16

    enter-IsAtomic : (email : Bytes) (u : User) → IsAtomic (enter o t email u)
    unfolding enter
    enter-IsAtomic email u = search (reading, issue_pair-IsAtomic) depth 16

    check_password-IsAtomic :
        (email pw : Bytes) (u : User) → IsAtomic (check_password o t email pw u)
    unfolding check_password
    check_password-IsAtomic email pw u = search (reading, enter-IsAtomic) depth 16

    with_account-IsAtomic :
        (email pw : Bytes) (r : Result User) → IsAtomic (with_account o t email pw r)
    unfolding with_account
    with_account-IsAtomic email pw (err e) = search reading depth 8
    with_account-IsAtomic email pw (ok u) = check_password-IsAtomic email pw u

    with_address-IsAtomic :
        (email pw : Bytes) (r : Result Bytes) → IsAtomic (with_address o t email pw r)
    unfolding with_address
    with_address-IsAtomic email pw (err e) = search reading depth 8
    with_address-IsAtomic email pw (ok a) = search (reading, with_account-IsAtomic) depth 8

    pub login-IsAtomic : (email pw : Bytes) → IsAtomic (login o t email pw)
    unfolding login
    login-IsAtomic email pw = search (reading, with_address-IsAtomic) depth 8

    pub create-IsAtomic : (user_id name : Bytes) → IsAtomic (create o t user_id name)
    unfolding create
    create-IsAtomic user_id name = search (reading, LeavesDb-generate) depth 12
