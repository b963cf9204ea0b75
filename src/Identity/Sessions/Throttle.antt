-- ===== src/Identity/Sessions/Throttle.antt =====
-- The lockout counter behind `Login` (RedisLoginThrottle of modules/identity/infrastructure).
use native.Mathlib.Nat.{add-zero}
use lynk.Base.{
  ℕ, suc, ◌+◌, ◌≤◌, ◌<◌, ◌≡◌, refl, Bytes, true, false, List, [], ◌∷◌, none, some, arith, ltb,
  bytes_eq_refl, bytes_eq_iff, ◌≢◌, ◌∙◌, if◌then◌else◌, length,
}
use lynk.Effects.{World, ok, err, calm, attempt, account_locked, raise}
use lynk.Effects.Redis.{Cell, number, read, incr, expire}
use lynk.Identity.Database.{Db}
use lynk.Identity.Outside.{Outside}
use lynk.Identity.Ports.{throttle_key, throttle_window, allowed, record_failure}
use lynk.Identity.Sessions.{Lifetimes, login}

-- The counter that stands behind an identifier after `n` failures, the last at `last`.
abbrev counter : ℕ → ℕ → Cell
counter n last = record { value = number n; expires_at = some (last + throttle_window) }

module _ (o : Outside) (id : Bytes) where
  -- Failures at these times, on a Redis that answers.
  pub fail_at : List ℕ → World Db → World Db
  fail_at [] w = w
  fail_at (t ∷ ts) w = fail_at ts (record_failure o id (record (calm w) { now = t })).1

  -- Each time lies within the window that the one before opened.
  abbrev pub Chained : ℕ → List ℕ → Type 0
  Chained last [] = Unit {0}
  Chained last (t ∷ ts) = (t < last + throttle_window) × Chained t ts

  abbrev pub last_of : ℕ → List ℕ → ℕ
  last_of last [] = last
  last_of last (t ∷ ts) = last_of t ts

  first_failure :
      (w : World Db) (t : ℕ)
      → read t w.redis (throttle_key o id) ≡ none
      → (record_failure o id (record (calm w) { now = t })).1.redis (throttle_key o id)
        ≡ some (counter 1 t)
  unfolding record_failure attempt incr expire read
  first_failure w t h = ground (arith, bytes_eq_refl (throttle_key o id))

  next_failure :
      (w : World Db) (n last t : ℕ)
      → w.redis (throttle_key o id) ≡ some (counter n last)
      → t < last + throttle_window
      → (record_failure o id (record (calm w) { now = t })).1.redis (throttle_key o id)
        ≡ some (counter (n + 1) t)
  unfolding record_failure attempt incr expire read
  next_failure w n last t h k = ground (arith, bytes_eq_refl (throttle_key o id))

  fail_at-counter :
      (ts : List ℕ) (w : World Db) (n last : ℕ)
      → w.redis (throttle_key o id) ≡ some (counter n last)
      → Chained last ts
      → (fail_at ts w).redis (throttle_key o id) ≡ some (counter (n + length ts) (last_of last ts))
  unfolding fail_at
  fail_at-counter [] w n last h c = rw add-zero h
  fail_at-counter (t ∷ ts) w n last h c =
      let w' = (record_failure o id (record (calm w) { now = t })).1 in
      ground (arith, fail_at-counter ts w' (n + 1) t (next_failure w n last t h c.0) c.1)

  allowed-counter :
      (w : World Db) (n last t : ℕ)
      → w.redis (throttle_key o id) ≡ some (counter n last)
      → (allowed o id (record (calm w) { now = t })).0
        ≡ ok (if ltb t (last + throttle_window) then ltb n 5 else true)
  unfolding allowed attempt read
  allowed-counter w n last t h = ground arith

  -- The lockout exactly: after failures of one identifier, each within fifteen minutes of the one
  -- before and none counted earlier, an attempt within fifteen minutes of the LAST of them is
  -- allowed exactly if they were fewer than five, and any later attempt is allowed.
  pub lockout_exact :
      (w : World Db) (first : ℕ) (ts : List ℕ) (t : ℕ)
      → read first w.redis (throttle_key o id) ≡ none
      → Chained first ts
      → (allowed o id (record (calm (fail_at (first ∷ ts) w)) { now = t })).0
        ≡ ok (if ltb t (last_of first ts + throttle_window) then ltb (suc (length ts)) 5 else true)
  unfolding fail_at
  lockout_exact w first ts t h c =
      let w' = (record_failure o id (record (calm w) { now = first })).1 in
      rw
        (allowed-counter (fail_at ts w') (1 + length ts) (last_of first ts) t
          (fail_at-counter ts w' 1 first (first_failure w first h) c))
        (ground arith)

module _ (o : Outside) (t : Lifetimes) where
  login_locked :
      (email password : Bytes) (w : World Db)
      → (allowed o email (calm w)).0 ≡ ok false
      → login o t email password (calm w) ≡ (err account_locked, calm w)
  unfolding login allowed attempt raise
  login_locked email password w h = ground arith

  -- Five or more failures in a row, each within fifteen minutes of the one before, lock the
  -- identifier: until fifteen minutes after the last of them every login is refused as locked,
  -- whatever the password and whether or not an account exists, and changes nothing.
  pub failures_lock_login :
      (email password : Bytes) (w : World Db) (first : ℕ) (ts : List ℕ) (now : ℕ)
      → read first w.redis (throttle_key o email) ≡ none
      → Chained o email first ts
      → 4 ≤ length ts
      → now < last_of o email first ts + throttle_window
      → let v = record (calm (fail_at o email (first ∷ ts) w)) { now = now } in
        login o t email password v ≡ (err account_locked, v)
  failures_lock_login email password w first ts now h c many soon =
      let v = record (fail_at o email (first ∷ ts) w) { now = now } in
      login_locked email password v (lockout_exact o email w first ts now h c ∙ refused)
    where
      refused :
          ok (
            if ltb now (last_of o email first ts + throttle_window)
            then ltb (suc (length ts)) 5
            else true)
          ≡ ok false
      refused = ground arith

module _ (o : Outside) (other : Bytes) where
  allowed-cell :
      (v u : World Db) (now : ℕ)
      → v.redis (throttle_key o other) ≡ u.redis (throttle_key o other)
      → (allowed o other (record (calm v) { now = now })).0
        ≡ (allowed o other (record (calm u) { now = now })).0
  unfolding allowed attempt read
  allowed-cell v u now e = ground arith

  record_failure_other :
      (spelling : Bytes) (w : World Db)
      → throttle_key o spelling ≢ throttle_key o other
      → (record_failure o spelling (calm w)).1.redis (throttle_key o other)
        ≡ w.redis (throttle_key o other)
  unfolding record_failure attempt incr expire read
  record_failure_other spelling w ne =
      ground (arith, bytes_eq_iff (throttle_key o spelling) (throttle_key o other))

  fail_at_other :
      (spelling : Bytes) (ts : List ℕ) (w : World Db)
      → throttle_key o spelling ≢ throttle_key o other
      → (fail_at o spelling ts w).redis (throttle_key o other) ≡ w.redis (throttle_key o other)
  unfolding fail_at
  fail_at_other spelling [] w ne = refl
  fail_at_other spelling (t ∷ ts) w ne =
      fail_at_other spelling ts (record_failure o spelling (record (calm w) { now = t })).1 ne
      ∙ record_failure_other spelling (record w { now = t }) ne

-- Failures of one spelling of an address do not count for another: as long as the two have different
-- counters, whether the second may log in is the same as before, at any time.
pub other_spelling_counts_alone :
    (o : Outside) (spelling other : Bytes) (ts : List ℕ) (w : World Db) (now : ℕ)
    → throttle_key o spelling ≢ throttle_key o other
    → (allowed o other (record (calm (fail_at o spelling ts w)) { now = now })).0
      ≡ (allowed o other (record (calm w) { now = now })).0
other_spelling_counts_alone o spelling other ts w now ne =
    allowed-cell o other (fail_at o spelling ts w) w now (fail_at_other o other spelling ts w ne)
