-- ===== src/Identity/Sessions/Tests.antt =====
-- The theorems on sessions at concrete inputs.
use lynk.Base.{◌≡◌, ◌≢◌, refl, codes, true, [], ◌∷◌, arith, bytes_eq, trim_space}
use lynk.Effects.Redis.{read}
use lynk.Effects.{attempt, ok, err, calm, invalid_credentials, refresh_token_invalid}
use lynk.Identity.Database.{revoke_session}
use lynk.Identity.Domain.{new_user_id, token_is_active}
use lynk.Identity.Outside.{new_email}
use lynk.Identity.Ports.{throttle_key, allowed}
use lynk.Identity.Sessions.{login, refresh}
use lynk.Identity.Sessions.Throttle.{fail_at, lockout_exact}
use lynk.Identity.Sessions.Refusals.{counted, wrong_password, refusals_alike}
use lynk.Identity.Sessions.Rotation.{CanIssue, IsUsable, refresh_once}
use lynk.Identity.Samples.{ann-IsSound, sample, lifetimes, ann, session, world}

lockout_exact_example :
    (allowed sample
      (codes "ann@x")
      (record (calm (fail_at sample (codes "ann@x") (1 ∷ 2 ∷ 3 ∷ []) world)) { now = 4 })).0
    ≡ ok true
unfolding read
lockout_exact_example =
    lockout_exact sample (codes "ann@x") world 1 (2 ∷ 3 ∷ []) 4 refl
      (omega arith, (omega arith, tt))

different_keys : throttle_key sample (codes "ANN@x") ≢ throttle_key sample (codes "ann@x")
unfolding throttle_key
different_keys h = ground (arith, h)

may_try : (allowed sample (codes "ann@x") (calm world)).0 ≡ ok true
unfolding allowed attempt read
may_try = refl

address : new_email sample (codes "ann@x") ≡ ok (codes "ann@x")
unfolding new_email bytes_eq trim_space
address = refl

refusals_alike_example :
    login sample lifetimes (codes "ann@x") (codes "no") (calm world)
    ≡ (err invalid_credentials, counted sample (codes "ann@x") world)
unfolding bytes_eq
refusals_alike_example =
    refusals_alike sample lifetimes (codes "ann@x") (codes "no") world may_try
      (wrong_password (codes "ann@x") ann address refl ann-IsSound refl)

session-IsUsable : IsUsable sample lifetimes (codes "old") world session ann
unfolding new_user_id bytes_eq token_is_active
session-IsUsable = record {
  found = refl;
  live = refl;
  session_scans = refl;
  owner_shape = refl;
  owner_scans = refl;
  owner = refl;
  sound = ann-IsSound;
  may_sign_in = refl;
}

can_issue :
    CanIssue sample lifetimes world ann
      (codes "00000000-0000-7000-8000-000000000008t0")
      (revoke_session session.id world.now world.db.sessions)
unfolding bytes_eq revoke_session
can_issue = record { owner_scans = refl; signs = refl; id_scans = refl; fresh = refl }

refresh_once_example :
    let v = record (calm (refresh sample lifetimes (codes "old") (calm world)).1) { now = 200 } in
    refresh sample lifetimes (codes "old") v ≡ (err refresh_token_invalid, v)
refresh_once_example =
    refresh_once sample lifetimes (codes "old") world session ann
      (codes "00000000-0000-7000-8000-000000000008t0") 200 refl session-IsUsable can_issue
