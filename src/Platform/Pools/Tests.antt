-- ===== src/Platform/Pools/Tests.antt =====
-- Two replicas, of which the second may be down.
use lynk.Base.{true, none, ℕ, ◌≡◌, refl, codes, not, bytes_eq, [], ◌∷◌, pos, ◌^◌, ◌-◌}
use lynk.Platform.Pools.{PoolConfig, Driver, Pools, with_defaults, connect, read_pool}
use lynk.Platform.Pools.Balance.{fails, IsBalanced, connect-IsBalanced}

abbrev config : PoolConfig
config = record {
  write_url = codes "w";
  read_urls = codes "r1" ∷ codes "r2" ∷ [];
  max_conns = pos 0;
  min_conns = pos 0;
  max_conn_lifetime = pos 0;
  max_conn_idle_time = pos 0;
}

-- The second replica can be opened, but does not answer.
abbrev second_down : Driver
second_down = record {
  parses = λ url. true;
  opens = λ limits url. true;
  answers = λ url. not (bytes_eq url (codes "r2"));
}

connect-IsBalanced_example :
    IsBalanced (fails second_down (with_defaults 2 config)) config (connect second_down 2 config)
connect-IsBalanced_example = connect-IsBalanced second_down 2 config

closes_what_it_opened : connect second_down 2 config ≡ record {
  pools = none;
  opened = codes "w" ∷ codes "r1" ∷ codes "r2" ∷ [];
  closed = codes "r2" ∷ codes "w" ∷ codes "r1" ∷ [];
}
unfolding connect bytes_eq
closes_what_it_opened = refl

abbrev pools : ℕ → Pools
pools next = record { write = codes "w"; reads = codes "r1" ∷ codes "r2" ∷ []; next = next }

takes_turns :
    ((read_pool (pools 0)).0 ≡ codes "r2")
    × ((read_pool (read_pool (pools 0)).1).0 ≡ codes "r1")
    × ((read_pool (pools (2 ^ 64 - 1))).0 ≡ codes "r1")
unfolding read_pool
takes_turns = (refl, refl, refl)
