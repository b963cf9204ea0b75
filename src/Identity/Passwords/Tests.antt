-- ===== src/Identity/Passwords/Tests.antt =====
-- The theorems on a change of password at concrete inputs.
use lynk.Base.{◌≡◌, refl, sym, subst, find?, codes, some, bytes_eq}
use lynk.Effects.{err, calm, refresh_token_invalid}
use lynk.Identity.Accounts.{change_password_of}
use lynk.Identity.Database.{revoke_sessions_of}
use lynk.Identity.Domain.{RefreshToken}
use lynk.Identity.Passwords.{CanChange, changed, change_password_of_lem, change_password_of-refresh}
use lynk.Identity.Samples.{ann-IsSound, sample, lifetimes, ann, session, world}
use lynk.Identity.Sessions.{refresh}

can_change : CanChange sample world (codes "pw") ann
unfolding bytes_eq
can_change = record { owner = refl; sound = ann-IsSound; verified = refl; event_scans = refl }

abbrev ended_session : RefreshToken
ended_session = record session { revoked_at = some 100 }

ended_found :
    find?
      (λ x. bytes_eq x.token_hash (codes "old"))
      (change_password_of sample ann.id (codes "pw") (codes "new") (calm world)).1.db.sessions
    ≡ some ended_session
unfolding bytes_eq revoke_sessions_of changed
ended_found =
    subst
      (λ r. find? (λ x. bytes_eq x.token_hash (codes "old")) r.1.db.sessions ≡ some ended_session)
      (sym (change_password_of_lem sample world (codes "pw") (codes "new") ann refl can_change))
      refl

change_password_of-refresh_example :
    let v =
      record (calm (change_password_of sample ann.id (codes "pw") (codes "new") (calm world)).1) {
        now = 200;
      } in
    refresh sample lifetimes (codes "old") v ≡ (err refresh_token_invalid, v)
change_password_of-refresh_example =
    change_password_of-refresh sample lifetimes world (codes "pw") (codes "new") (codes "old") ann
      ended_session 200 refl can_change ended_found refl
