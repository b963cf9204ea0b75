-- ===== src/Platform/Lock/Exclusion.antt =====
-- That a lease keeps others out (platform/lock, platform/jobs).
use lynk.Base.{
  ℕ, ◌+◌, ◌<◌, ◌≡◌, ◌≢◌, refl, ap, ◌∙◌, Bytes, codes, Bool, true, false, List, [], ◌∷◌, ◌++◌, none,
  some, arith, bytes_eq_iff, bytes_eq_refl,
}
use lynk.Effects.{World, ok, calm, attempt, draw, pure}
use lynk.Effects.Redis.{Store, Cell, text, read, set, del, write}
use lynk.Platform.Lock.{
  set_nx, release_script, acquire, Job, run_once, run_leased, unchecked, fail_closed, fail_open,
  FailureMode, set_if_free,
}

-- What other processes do to the key meanwhile.
pub data Event : Type 0 where
  tries : ℕ → Bytes → ℕ → Event
  releases : ℕ → Bytes → Event

abbrev pub time_of : Event → ℕ
time_of (tries now token ttl) = now
time_of (releases now token) = now

pub step : Bytes → Store → Event → Store
step key s (tries now token ttl) = (set_nx now s key token ttl).1
step key s (releases now token) = release_script now s key token

pub run : Bytes → Store → List Event → Store
run key s [] = s
run key s (e ∷ es) = run key (step key s e) es

-- Before the lease ends, and not a release by its own holder.
abbrev pub Foreign : ℕ → Bytes → List Event → Type 0
Foreign ends token [] = Unit {0}
Foreign ends token (tries now other ttl ∷ es) = (now < ends) × Foreign ends token es
Foreign ends token (releases now other ∷ es) =
    (now < ends) × (other ≢ token) × Foreign ends token es

abbrev pub held : Bytes → ℕ → Cell
held token ends = record { value = text token; expires_at = some ends }

tries-held :
    (key token other : Bytes) (ends now ttl : ℕ) (s : Store)
    → s key ≡ some (held token ends)
    → now < ends
    → set_nx now s key other ttl ≡ (false, s)
unfolding set_nx read
tries-held key token other ends now ttl s h l = ground (arith, h, l)

releases-held :
    (key token other : Bytes) (ends now : ℕ) (s : Store)
    → s key ≡ some (held token ends)
    → now < ends
    → other ≢ token
    → release_script now s key other ≡ s
unfolding release_script read
releases-held key token other ends now s h l ne = ground (arith, h, l, bytes_eq_iff token other)

run-held :
    (key token : Bytes) (ends : ℕ) (es : List Event) (s : Store)
    → s key ≡ some (held token ends)
    → Foreign ends token es
    → run key s es ≡ s
unfolding run step
run-held key token ends [] s h f = refl
run-held key token ends (tries now other ttl ∷ es) s h f =
    ap (λ r. run key r.1 es) (tries-held key token other ends now ttl s h f.0)
    ∙ run-held key token ends es s h f.1
run-held key token ends (releases now other ∷ es) s h f =
    ap (λ r. run key r es) (releases-held key token other ends now s h f.0 f.1)
    ∙ run-held key token ends es s h f.2

won-held :
    (key token : Bytes) (now ttl : ℕ) (s : Store)
    → read now s key ≡ none
    → (set_nx now s key token ttl).1 key ≡ some (held token (now + ttl))
unfolding set_nx set write
won-held key token now ttl s free = ground (arith, free, bytes_eq_refl key)

-- Mutual exclusion: once a process has taken a free lock, then whatever attempts other processes
-- make before its time is up, and whatever leases with other tokens they release, in any order, the
-- lock stays as it is and the next attempt before that time fails too.
pub set_nx-exclusive :
    (key token other : Bytes) (start ttl now ttl' : ℕ) (s : Store) (es : List Event)
    → read start s key ≡ none
    → Foreign (start + ttl) token es
    → now < start + ttl
    → let taken = (set_nx start s key token ttl).1 in
      set_nx now (run key taken es) key other ttl' ≡ (false, taken)
set_nx-exclusive key token other start ttl now ttl' s es free f l =
    let taken = (set_nx start s key token ttl).1 in
    rw (run-held key token (start + ttl) es taken (won-held key token start ttl s free) f) (
      tries-held key token other (start + ttl) now ttl' taken (won-held key token start ttl s free)
        l)

own-release :
    (key token other : Bytes) (ends now later ttl : ℕ) (s : Store)
    → s key ≡ some (held token ends)
    → now < ends
    → (set_nx later (release_script now s key token) key other ttl).0 ≡ true
unfolding set_nx release_script read del write
own-release key token other ends now later ttl s h l =
    ground (arith, h, l, bytes_eq_refl key, bytes_eq_refl token)

-- A release by the holder makes the lock free for the next attempt, whoever makes it and before its
-- time is up already.
pub release_script-set_nx :
    (key token other : Bytes) (start ttl now later ttl' : ℕ) (s : Store)
    → read start s key ≡ none
    → now < start + ttl
    → let freed = release_script now (set_nx start s key token ttl).1 key token in
      (set_nx later freed key other ttl').0 ≡ true
release_script-set_nx key token other start ttl now later ttl' s free l =
    own-release key token other (start + ttl) now later ttl' (set_nx start s key token ttl).1
      (won-held key token start ttl s free) l

module _ {D : Type 0} (token_of : ℕ → Bytes) (job : Job D) where
  -- While another instance holds the lease of a job, a tick of the job here does not run it: nothing
  -- has changed but that a token was drawn.
  pub run_once-held :
      (w : World D) (token : Bytes) (ends : ℕ)
      → w.redis (codes "job:" ++ job.name) ≡ some (held token ends)
      → w.now < ends
      → run_once token_of job (calm w) ≡ (ok tt, record (calm w) { draws = w.draws + 1 })
  unfolding run_once acquire set_if_free draw attempt pure
  run_once-held w token ends h l = rw (
      tries-held (codes "job:" ++ job.name) token (token_of w.draws) ends w.now job.lease_ttl
        w.redis h l)

  -- The world after a tick that could not check its lease.
  abbrev pub left_by : FailureMode → World D → World D
  left_by fail_closed v = v
  left_by fail_open v = (job.run v).1

  by_mode : (m : FailureMode) (v : World D) → unchecked token_of m job.run v ≡ (ok tt, left_by m v)
  unfolding pure
  by_mode fail_closed v = refl
  by_mode fail_open v = refl

  -- What happens when Redis cannot be reached is the job's own choice: a job that fails closed is
  -- not run, and one that fails open is run, without a lease. (The entropy source answers.)
  pub run_once-unreachable :
      (w : World D) (fs : List Bool)
      → run_once token_of job (record w { faults = false ∷ true ∷ fs })
        ≡ (ok tt, left_by job.mode (record w { faults = fs; draws = w.draws + 1 }))
  unfolding run_once run_leased acquire draw attempt
  run_once-unreachable w fs = by_mode job.mode (record w { faults = fs; draws = w.draws + 1 })
