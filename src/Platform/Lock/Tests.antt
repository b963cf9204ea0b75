-- ===== src/Platform/Lock/Tests.antt =====
-- The theorems on leases and jobs at concrete inputs.
use lynk.Base.{ℕ, ◌+◌, ◌≡◌, ◌≢◌, refl, Bytes, codes, false, [], ◌∷◌, none, some, arith}
use lynk.Effects.{World, App, ok}
use lynk.Effects.Redis.{Store, read}
use lynk.Platform.Lock.{set_nx, Job, fail_open}
use lynk.Platform.Lock.Exclusion.{tries, releases, run, held, set_nx-exclusive}

abbrev no_cell : Store
no_cell k = none

other_token : codes "b" ≢ codes "a"
other_token e = ground (arith, e)

abbrev taken : Store
taken = (set_nx 10 no_cell (codes "k") (codes "a") 100).1

set_nx-exclusive_example :
    set_nx 60
      (run (codes "k") taken (tries 20 (codes "b") 5 ∷ releases 30 (codes "b") ∷ []))
      (codes "k")
      (codes "c")
      7
    ≡ (false, taken)
unfolding read
set_nx-exclusive_example =
    set_nx-exclusive (codes "k") (codes "a") (codes "c") 10 100 60 7 no_cell
      (tries 20 (codes "b") 5 ∷ releases 30 (codes "b") ∷ []) refl
      (omega arith, (omega arith, other_token, tt)) (omega arith)

-- A job that counts its runs.
abbrev counting : App ℕ (Unit {0})
counting w = (ok tt, record w { db = w.db + 1 })

abbrev job : Job ℕ
job = record { name = codes "sweep"; every = 60; lease_ttl = 100; mode = fail_open; run = counting }

abbrev token_of : ℕ → Bytes
token_of n = n ∷ []

abbrev led_elsewhere : World ℕ
led_elsewhere = record {
  db = 0;
  in_tx = false;
  redis = λ k. some (held (codes "a") 110);
  now = 50;
  draws = 3;
  faults = [];
  published = [];
  mails = [];
}
