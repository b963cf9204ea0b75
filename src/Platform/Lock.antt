-- ===== src/Platform/Lock.antt =====
-- Leases on Redis (services/core/internal/platform/lock/lock.go) and the jobs that run under them
-- (platform/jobs/jobs.go). A token is the value of a draw; the work of a job is a parameter.
pub mod Exclusion
mod Tests
use lynk.Base.{
  ℕ, ◌+◌, ◌*◌, Bytes, codes, Bool, true, false, not, ◌||◌, List, [], ◌∷◌, ◌++◌, Option, none, some,
  bytes_eq, ltb, min, ◌==◌, if◌then◌else◌,
}
use lynk.Effects.{
  World, App, Result, ok, err, Error, pure, raise, attempt, draw, minutes, handle, ◌>>=◌, ◌>>◌,
}
use lynk.Effects.Redis.{Store, Cell, text, read, set, del}

-- SET key value NX PX ttl, and whether it was done.
unfoldable pub set_nx : ℕ → Store → Bytes → Bytes → ℕ → Bool × Store
unfolding read set
set_nx now s key token ttl = elim (read now s key) [
  | some c ↦ (false, s)
  | none ↦ (true, set now s key (text token) ttl)
]

abbrev holds : Bytes → Option Cell → Bool
holds token none = false
holds token (some c) = elim c.value [ text t ↦ bytes_eq t token | _ ↦ false ]

-- The release script: the key goes only if it still holds this token.
unfoldable pub release_script : ℕ → Store → Bytes → Bytes → Store
unfolding read del bytes_eq
release_script now s key token = if holds token (read now s key) then del s key else s

pub record Lease : Type 0 where
  pub key : Bytes
  pub token : Bytes

module _ {D : Type 0} (token_of : ℕ → Bytes) where
  set_if_free : Bytes → Bytes → ℕ → App D (Option Lease)
  unfolding set_nx
  set_if_free key token ttl w =
      let r = set_nx w.now w.redis key token ttl in
      if r.0
      then (ok (some (record { key = key; token = token })), record w { redis = r.1 })
      else (ok none, w)

  -- `none` is a lock that another holder has.
  unfoldable pub acquire : Bytes → ℕ → App D (Option Lease)
  unfolding set_if_free
  acquire key ttl = do n ← draw; attempt; set_if_free key (token_of n) ttl

  drop : Lease → App D (Unit {0})
  unfolding release_script
  drop l w = (ok tt, record w { redis = release_script w.now w.redis l.key l.token })

  unfoldable pub release : Lease → App D (Unit {0})
  unfolding drop
  release l = do attempt; drop l

pub data FailureMode : Type 0 where
  fail_closed fail_open : FailureMode

pub record Job (D : Type 0) : Type 0 where
  pub name : Bytes
  pub every : ℕ
  pub lease_ttl : ℕ
  pub mode : FailureMode
  pub run : App D (Unit {0})

-- `none` is an error: no name or no interval. (A nil `Run` is no value here.)
unfoldable pub register : {D : Type 0} → Job D → List (Job D) → Option (List (Job D))
register job jobs =
    if bytes_eq job.name [] || job.every == 0
    then none
    else some (
        jobs
        ++ (if job.lease_ttl == 0
            then record job { lease_ttl = min (2 * job.every) (minutes 10) }
            else job)
          ∷ [])

module _ {D : Type 0} (token_of : ℕ → Bytes) where
  -- The errors of the work and of the release are logged and dropped.
  abbrev pub ignore : App D (Unit {0}) → App D (Unit {0})
  ignore m w = (ok tt, (m w).1)

  -- A tick whose lease could not be checked.
  abbrev pub unchecked : FailureMode → App D (Unit {0}) → App D (Unit {0})
  unchecked fail_closed m = pure tt
  unchecked fail_open m = ignore m

  -- On the result of `Acquire`.
  unfoldable pub run_leased : Job D → Result (Option Lease) → App D (Unit {0})
  run_leased job (err e) = unchecked job.mode job.run
  run_leased job (ok none) = pure tt
  run_leased job (ok (some lease)) = do ignore job.run; ignore (release token_of lease)

  unfoldable pub run_once : Job D → App D (Unit {0})
  unfolding run_leased
  run_once job = handle (acquire token_of (codes "job:" ++ job.name) job.lease_ttl) (run_leased job)

unfoldable pub mark_once : {D : Type 0} → Bytes → ℕ → App D Bool
unfolding set_nx
mark_once key ttl = handle attempt λ r w. elim r [
  | err e ↦ (err e, w)
  | ok _ ↦ let s = set_nx w.now w.redis key (codes "done") ttl in (ok s.0, record w { redis = s.1 })
]
