-- ===== src/Identity/Sessions/Rotation.antt =====
-- Refresh tokens rotate (modules/identity/application/refresh.go).
use lynk.Base.{
  ℕ, ◌+◌, ◌≡◌, refl, Bytes, Bool, true, false, ◌||◌, List, [], ◌∷◌, ◌++◌, none, some, arith,
  bytes_eq, bytes_eq_refl, find?, any, ◌∙◌,
}
use lynk.Effects.{
  World, ok, err, refresh_token_invalid, calm, attempt, draw, raise, pure, get_db, get_now, put_db,
  ◌>>=◌, ◌>>◌,
}
use lynk.Effects.Rules.{within_transaction_ok}
use lynk.Identity.Database.{Db, UserRow, revoke_session}
use lynk.Identity.Domain.{
  RefreshToken, can_sign_in, new_user_id, token_is_active, new_refresh_token,
}
use lynk.Identity.Outside.{Outside}
use lynk.Identity.Repositories.{create_session, revoke}
use lynk.Identity.Sessions.{
  Lifetimes, TokenPair, refresh, issue_pair, issue_access_token, generate, resume, rotate,
}
use lynk.Identity.Repositories.Reads.{
  IsSound, user_of, get_user_by_id_found, get_session_by_hash_found,
}

module _ (o : Outside) (t : Lifetimes) where
  -- The fresh values that a new pair for `row` takes in `w`, beside the sessions `kept`.
  pub record CanIssue (w : World Db) (row : UserRow) (signed : Bytes) (kept : List RefreshToken)
      : Type 0 where
    pub owner_scans : o.scan_uuid row.id ≡ some row.id
    pub signs : o.sign row.id row.role (o.hex_token w.draws) (w.now + t.access_ttl) ≡ some signed
    pub id_scans :
        o.scan_uuid (o.uuid w.now (w.draws + 1 + 1)) ≡ some (o.uuid w.now (w.draws + 1 + 1))
    pub fresh :
        any
          (λ x.
            bytes_eq x.id (o.uuid w.now (w.draws + 1 + 1))
            || bytes_eq x.token_hash (o.hash_token (o.token (w.draws + 1))))
          kept
        ≡ false

  -- The session that a pair issued in `w` creates, and the pair.
  pub successor : World Db → UserRow → RefreshToken
  successor w row =
      new_refresh_token (o.uuid w.now (w.draws + 1 + 1)) row.id
        (o.hash_token (o.token (w.draws + 1))) (w.now + t.refresh_ttl) w.now

  pub pair_of : World Db → Bytes → TokenPair
  pair_of w signed = record {
    access = record { token = signed; id = o.hex_token w.draws; expires_at = w.now + t.access_ttl };
    refresh_raw = o.token (w.draws + 1);
  }

  pub issued : World Db → UserRow → World Db
  unfolding successor
  issued w row = record (calm w) {
    db = record w.db { sessions = w.db.sessions ++ successor w row ∷ [] };
    draws = w.draws + 1 + 1 + 1;
  }

  pub issue_pair_lem :
      (w : World Db) (row : UserRow) (signed : Bytes)
      → CanIssue w row signed w.db.sessions
      → issue_pair o t (user_of row) (calm w) ≡ (ok (pair_of w signed), issued w row)
  unfolding issue_pair issue_access_token generate create_session attempt draw raise pure get_db
      get_now put_db issued pair_of
  issue_pair_lem w row signed c = rw (c.signs, c.id_scans, c.owner_scans, c.fresh)

  -- A refresh token that is good for use in `w`.
  pub record IsUsable (raw : Bytes) (w : World Db) (s : RefreshToken) (row : UserRow) : Type 0 where
    pub found : find? (λ x. bytes_eq x.token_hash (o.hash_token raw)) w.db.sessions ≡ some s
    pub live : token_is_active w.now s ≡ true
    pub session_scans : o.scan_uuid s.id ≡ some s.id
    pub owner_shape : new_user_id s.user_id ≡ ok s.user_id
    pub owner_scans : o.scan_uuid s.user_id ≡ some s.user_id
    pub owner : find? (λ r. bytes_eq r.id s.user_id) w.db.users ≡ some row
    pub sound : IsSound o row
    pub may_sign_in : can_sign_in (user_of row) ≡ true

  -- The world in which the presented session is revoked, and then a new pair is issued.
  pub ended : World Db → RefreshToken → World Db
  ended w s = record w { db = record w.db { sessions = revoke_session s.id w.now w.db.sessions } }

  module _ (w : World Db) (s : RefreshToken) (row : UserRow) (signed : Bytes) where
    inside : World Db
    inside = record (ended w s) { in_tx = true }

    body_ok :
        o.scan_uuid s.id ≡ some s.id
        → CanIssue w row signed (revoke_session s.id w.now w.db.sessions)
        → (get_now >>= λ now. revoke o s.id now >> issue_pair o t (user_of row))
            (record (calm w) { in_tx = true })
          ≡ (ok (pair_of w signed), calm (issued inside row))
    unfolding get_now revoke attempt get_db put_db pure raise inside ended issued pair_of
    body_ok scans c = rw scans (issue_pair_lem inside row signed again)
      where
        again : CanIssue inside row signed inside.db.sessions
        again = record {
          owner_scans = c.owner_scans;
          signs = c.signs;
          id_scans = c.id_scans;
          fresh = c.fresh;
        }

    rotate_ok :
        w.in_tx ≡ false
        → o.scan_uuid s.id ≡ some s.id
        → can_sign_in (user_of row) ≡ true
        → CanIssue w row signed (revoke_session s.id w.now w.db.sessions)
        → rotate o t s (user_of row) (calm w) ≡ (ok (pair_of w signed), issued (ended w s) row)
    unfolding rotate issued inside ended successor
    rotate_ok closed scans may c = rw may (
        within_transaction_ok _ w (issued inside row) (pair_of w signed) closed (body_ok scans c)
        ∙ rw closed)

  pub refresh_rotates :
      (raw : Bytes) (w : World Db) (s : RefreshToken) (row : UserRow) (signed : Bytes)
      → w.in_tx ≡ false
      → IsUsable raw w s row
      → CanIssue w row signed (revoke_session s.id w.now w.db.sessions)
      → refresh o t raw (calm w) ≡ (ok (pair_of w signed), issued (ended w s) row)
  unfolding refresh
  refresh_rotates raw w s row signed closed u c =
      rw (get_session_by_hash_found o (o.hash_token raw) s w u.found) (
        unfold get_now in
        rw (u.live, u.owner_shape)
          (unfold resume in
            rw (get_user_by_id_found o s.user_id row w u.owner_scans u.owner u.sound)
              (rotate_ok w s row signed closed u.session_scans u.may_sign_in c)))

-- The session row under a hash, once that session is revoked.
find?-revoke_session :
    (hash : Bytes) (s : RefreshToken) (now : ℕ) (ss : List RefreshToken)
    → find? (λ x. bytes_eq x.token_hash hash) ss ≡ some s
    → s.revoked_at ≡ none
    → find? (λ x. bytes_eq x.token_hash hash) (revoke_session s.id now ss)
      ≡ some (record s { revoked_at = some now })
unfolding revoke_session
find?-revoke_session hash s now [] f r = cc
find?-revoke_session hash s now (x ∷ xs) f r =
    ground (arith, find?-revoke_session hash s now xs, bytes_eq_refl s.id)

find?-append :
    {A : Type 0} (p : A → Bool) (xs ys : List A) (a : A)
    → find? p xs ≡ some a
    → find? p (xs ++ ys) ≡ some a
find?-append p [] ys a f = cc
find?-append p (x ∷ xs) ys a f = ground (arith, find?-append p xs ys a)

-- A session that is revoked or past its expiry is refused.
pub refresh_inactive :
    (o : Outside) (t : Lifetimes) (raw : Bytes) (w : World Db) (s : RefreshToken)
    → find? (λ x. bytes_eq x.token_hash (o.hash_token raw)) w.db.sessions ≡ some s
    → token_is_active w.now s ≡ false
    → refresh o t raw (calm w) ≡ (err refresh_token_invalid, calm w)
unfolding refresh
refresh_inactive o t raw w s f dead =
    rw (get_session_by_hash_found o (o.hash_token raw) s w f) (unfold get_now raise in rw dead)

live_unrevoked : (now : ℕ) (s : RefreshToken) → token_is_active now s ≡ true → s.revoked_at ≡ none
unfolding token_is_active
live_unrevoked now s h = ground arith

revoked_dead :
    (now at : ℕ) (s : RefreshToken)
    → token_is_active now (record s { revoked_at = some at }) ≡ false
unfolding token_is_active
revoked_dead now at s = refl

-- A refresh token serves once: after the refresh that used it, presenting it again, at whatever
-- time, is refused and changes nothing.
pub refresh_once :
    (o : Outside) (t : Lifetimes) (raw : Bytes) (w : World Db) (s : RefreshToken) (row : UserRow)
    (signed : Bytes) (later : ℕ)
    → w.in_tx ≡ false
    → IsUsable o t raw w s row
    → CanIssue o t w row signed (revoke_session s.id w.now w.db.sessions)
    → let v = record (calm (refresh o t raw (calm w)).1) { now = later } in
      refresh o t raw v ≡ (err refresh_token_invalid, v)
unfolding issued ended
refresh_once o t raw w s row signed later closed u c =
    rw (refresh_rotates o t raw w s row signed closed u c) (
      refresh_inactive o t raw (record (issued o t (ended o t w s) row) { now = later })
        (record s { revoked_at = some w.now })
        (find?-append _ (revoke_session s.id w.now w.db.sessions) _ _ (
          find?-revoke_session (o.hash_token raw) s w.now w.db.sessions u.found
            (live_unrevoked w.now s u.live)))
        (revoked_dead later w.now s))
