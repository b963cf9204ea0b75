-- ===== src/Identity/Passwords.antt =====
-- What a change of password does to the sessions of the account (modules/identity/application:
-- change_password.go, refresh.go).
mod Tests
use lynk.Base.{
  ℕ, suc, ◌+◌, ◌≡◌, refl, sym, ap, ◌∙◌, subst, Bytes, Bool, true, false, ◌&&◌, List, [], ◌∷◌, ◌++◌,
  Option, none, some, arith, bytes_eq, bytes_eq_iff, bytes_eq_refl, find?, any, update_where, ◌==◌,
  ==_iff, ltb, if◌then◌else◌,
}
use lynk.Effects.{
  World, Result, ok, err, Error, refresh_token_invalid, calm, attempt, draw, raise, pure, get_db,
  get_now, put_db, within_transaction, ◌>>=◌, ◌>>◌,
}
use lynk.Effects.Rules.{within_transaction_ok}
use lynk.Identity.Database.{Db, UserRow, OutboxRow, has_id_version, written, revoke_sessions_of}
use lynk.Identity.Domain.{
  User, RefreshToken, password_changed, change_password, pull_events, new_user_id, token_is_active,
  is_nil,
}
use lynk.Identity.Outside.{Outside}
use lynk.Identity.Repositories.{update_user, revoke_all_for_user, publish, get_user_by_id}
use lynk.Identity.Repositories.Reads.{IsSound, user_of, get_user_by_id_found}
use lynk.Identity.Accounts.{change_password_of, hash_password}
use lynk.Identity.Sessions.{Lifetimes, refresh}
use lynk.Identity.Sessions.Rotation.{refresh_inactive}

has_version :
    (id : Bytes) (rows : List UserRow) (row : UserRow)
    → find? (λ r. bytes_eq r.id id) rows ≡ some row
    → any (has_id_version id row.version) rows ≡ true
has_version id [] row h = cc
has_version id (r ∷ rows) row h = ground (arith, h, has_version id rows row)

-- A session of the user, looked up after all of them were revoked.
found_revoked :
    (p : RefreshToken → Bool) (user_id : Bytes) (now : ℕ) (ss : List RefreshToken)
    (s : RefreshToken)
    → find? p (revoke_sessions_of user_id now ss) ≡ some s
    → s.user_id ≡ user_id
    → is_nil s.revoked_at ≡ false
unfolding revoke_sessions_of
found_revoked p user_id now [] s h e = cc
found_revoked p user_id now (x ∷ xs) s h e =
    ground (arith, h, e, bytes_eq_iff x.user_id user_id, found_revoked p user_id now xs s)

module _ (o : Outside) where
  -- A change of password that can succeed in `w`.
  pub record CanChange (w : World Db) (current_password : Bytes) (row : UserRow) : Type 0 where
    pub owner : find? (λ r. bytes_eq r.id row.id) w.db.users ≡ some row
    pub sound : IsSound o row
    pub verified : o.verify_password row.password_hash current_password ≡ some true
    pub event_scans : o.scan_uuid (o.uuid w.now (w.draws + 1)) ≡ some (o.uuid w.now (w.draws + 1))

  abbrev changed_user : World Db → Bytes → UserRow → User
  changed_user w new_password row =
      change_password (o.hash_password w.draws new_password) w.now (user_of row)

  -- The row under its new hash, every session of the user revoked, and the event.
  pub changed : World Db → Bytes → UserRow → World Db
  unfolding change_password
  changed w new_password row = record (calm w) {
    db = record w.db {
      users =
          update_where (has_id_version row.id row.version)
            (written (changed_user w new_password row)) w.db.users;
      sessions = revoke_sessions_of row.id w.now w.db.sessions;
      outbox =
          w.db.outbox
          ++ record {
            id = o.uuid w.now (w.draws + 1);
            event = password_changed row.id w.now;
            occurred_at = w.now;
            published_at = none;
          }
            ∷ [];
    };
    draws = w.draws + 1 + 1;
  }

  body_ok :
      (w : World Db) (new_password : Bytes) (row : UserRow)
      → any (has_id_version row.id row.version) w.db.users ≡ true
      → o.scan_uuid row.id ≡ some row.id
      → o.scan_uuid (o.uuid w.now (w.draws + 1)) ≡ some (o.uuid w.now (w.draws + 1))
      → let u = changed_user w new_password row in
        (update_user o u >> (revoke_all_for_user o u.id w.now >> publish o (pull_events u).0))
          (record (calm w) { in_tx = true; draws = w.draws + 1 })
        ≡ (ok tt, calm (changed (record w { in_tx = true }) new_password row))
  unfolding update_user revoke_all_for_user publish pull_events change_password changed attempt draw
      get_db get_now put_db pure raise
  body_ok w new_password row has scans event = rw (scans, has, event)

  -- A successful change of password leaves exactly this behind: the account's row with the new hash,
  -- every session of the account revoked, and the event in the outbox. (No call fails, and the
  -- current password is right.)
  pub change_password_of_lem :
      (w : World Db) (current_password new_password : Bytes) (row : UserRow)
      → w.in_tx ≡ false
      → CanChange w current_password row
      → change_password_of o row.id current_password new_password (calm w)
        ≡ (ok tt, changed w new_password row)
  unfolding change_password_of hash_password draw attempt pure get_now changed
  change_password_of_lem w current_password new_password row closed c =
      rw
        (
          c.sound.id_shape,
          get_user_by_id_found o row.id row w c.sound.id_scans c.owner c.sound,
          c.verified,
        )
        (within_transaction_ok _ (record w { draws = w.draws + 1 })
            (changed (record w { in_tx = true }) new_password row) tt closed
            (body_ok w new_password row (has_version row.id w.db.users row c.owner) c.sound.id_scans
              c.event_scans)
          ∙ rw closed)

  revoked-inactive :
      (now : ℕ) (s : RefreshToken) → is_nil s.revoked_at ≡ false → token_is_active now s ≡ false
  unfolding token_is_active
  revoked-inactive now s h = rw h

  -- A change of password ends every session of the account: after it, whoever presents, at whatever
  -- time, a refresh token that belongs to a session of the account is refused, and nothing changes.
  -- (The change succeeds: no call fails, and the current password is right.)
  pub change_password_of-refresh :
      (t : Lifetimes) (w : World Db) (current_password new_password raw : Bytes) (row : UserRow)
      (s : RefreshToken) (later : ℕ)
      → w.in_tx ≡ false
      → CanChange w current_password row
      → let v =
          record (calm (change_password_of o row.id current_password new_password (calm w)).1) {
            now = later;
          } in
        find? (λ x. bytes_eq x.token_hash (o.hash_token raw)) v.db.sessions ≡ some s
        → s.user_id ≡ row.id
        → refresh o t raw v ≡ (err refresh_token_invalid, v)
  unfolding changed
  change_password_of-refresh t w current_password new_password raw row s later closed c found
        owned =
      let v = record (calm (change_password_of o row.id current_password new_password (calm w)).1) {
        now = later;
      } in
      refresh_inactive o t raw v s found (
        revoked-inactive later s (
          found_revoked (λ x. bytes_eq x.token_hash (o.hash_token raw)) row.id w.now w.db.sessions s
            (subst
              (λ r. find? (λ x. bytes_eq x.token_hash (o.hash_token raw)) r.1.db.sessions ≡ some s)
              (change_password_of_lem w current_password new_password row closed c) found)
            owned))
