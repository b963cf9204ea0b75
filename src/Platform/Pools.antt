-- ===== src/Platform/Pools.antt =====
-- The connection pools of the database (services/core/internal/platform/postgres/postgres.go). A pool
-- is the address that it was opened for. The tuning of a pool is that of pgx.
pub mod Balance
mod Tests
use lynk.Base.{
  ℕ, zero, suc, ◌+◌, ◌*◌, ◌%◌, ◌^◌, ◌≡◌, Bytes, Bool, true, false, not, List, [], ◌∷◌, ◌++◌, Option,
  none, some, ℤ, pos, negsuc, positive_or, length, get_or, if◌then◌else◌,
}
use lynk.Effects.{minutes}

pub record PoolConfig : Type 0 where
  pub write_url : Bytes
  pub read_urls : List Bytes
  pub max_conns : ℤ
  pub min_conns : ℤ
  pub max_conn_lifetime : ℤ
  pub max_conn_idle_time : ℤ

-- Config after withDefaults; `procs` is GOMAXPROCS.
pub record Limits : Type 0 where
  pub max_conns : ℕ
  pub min_conns : ℕ
  pub max_conn_lifetime : ℕ
  pub max_conn_idle_time : ℕ

unfoldable pub with_defaults : ℕ → PoolConfig → Limits
with_defaults procs c = record {
  max_conns = positive_or (4 * procs) c.max_conns;
  min_conns = positive_or 5 c.min_conns;
  max_conn_lifetime = positive_or (minutes 30) c.max_conn_lifetime;
  max_conn_idle_time = positive_or (minutes 5) c.max_conn_idle_time;
}

pub record Pools : Type 0 where
  pub write : Bytes
  pub reads : List Bytes
  pub next : ℕ

-- What Connect returns, `none` being an error, and which pools it has opened and closed on the way.
pub record Connected : Type 0 where
  pub pools : Option Pools
  pub opened : List Bytes
  pub closed : List Bytes

-- What newPool calls: pgxpool.ParseConfig, pgxpool.NewWithConfig and Ping, and whether each succeeds.
pub record Driver : Type 0 where
  pub parses : Bytes → Bool
  pub opens : Limits → Bytes → Bool
  pub answers : Bytes → Bool

-- What newPool returns, and which pools it has opened and closed.
pub record Dialled : Type 0 where
  pub pool : Option Bytes
  pub opened : List Bytes
  pub closed : List Bytes

module _ (driver : Driver) (limits : Limits) where
  unfoldable pub new_pool : Bytes → Dialled
  new_pool url =
      if not (driver.parses url)
      then record { pool = none; opened = []; closed = [] }
      else if not (driver.opens limits url)
      then record { pool = none; opened = []; closed = [] }
      else if not (driver.answers url)
      then record { pool = none; opened = url ∷ []; closed = url ∷ [] }
      else record { pool = some url; opened = url ∷ []; closed = [] }

  -- The loop over the replicas, with the pools that it has so far, and those that were ever opened or
  -- closed. On an error the primary and the replicas so far are closed.
  unfoldable pub open_reads : Bytes → List Bytes → List Bytes → List Bytes → List Bytes → Connected
  unfolding new_pool
  open_reads write reads opened closed [] = record {
    pools = some (record { write = write; reads = reads; next = 0 });
    opened = opened;
    closed = closed;
  }
  open_reads write reads opened closed (url ∷ urls) =
      let d = new_pool url in
      elim d.pool [
        | none ↦ record {
          pools = none;
          opened = opened ++ d.opened;
          closed = closed ++ (d.closed ++ write ∷ reads);
        }
        | some read ↦
            open_reads write (reads ++ read ∷ []) (opened ++ d.opened) (closed ++ d.closed) urls
      ]

unfoldable pub connect : Driver → ℕ → PoolConfig → Connected
unfolding open_reads with_defaults new_pool
connect driver procs c =
    let limits = with_defaults procs c in
    let first = new_pool driver limits c.write_url in
    elim first.pool [
      | none ↦ record { pools = none; opened = first.opened; closed = first.closed }
      | some write ↦ open_reads driver limits write [] first.opened first.closed c.read_urls
    ]

-- `next` is an atomic.Uint64.
unfoldable pub pick_read : List Bytes → Pools → Bytes × Pools
pick_read [] p = (p.write, p)
pick_read (r ∷ []) p = (r, p)
pick_read (r ∷ s ∷ rs) p =
    let n = (p.next + 1) % 2 ^ 64 in
    (get_or (r ∷ s ∷ rs) (n % length (r ∷ s ∷ rs)) p.write, record p { next = n })

unfoldable pub read_pool : Pools → Bytes × Pools
unfolding pick_read
read_pool p = pick_read p.reads p

-- Close: the pools that are closed.
unfoldable pub close_pools : Pools → List Bytes
close_pools p = p.write ∷ p.reads
