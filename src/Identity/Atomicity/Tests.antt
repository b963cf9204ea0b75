-- ===== src/Identity/Atomicity/Tests.antt =====
-- A failing use case at a concrete input.
use lynk.Base.{◌≡◌, refl, codes, true, false, [], ◌∷◌, bytes_eq, trim_space}
use lynk.Effects.{
  World, infrastructure, err, attempt, draw, pure, raise, lift, get_now, get_db, put_db,
  within_transaction,
}
use lynk.Identity.Repositories.{create_user, publish}
use lynk.Identity.Accounts.{register, hash_password}
use lynk.Identity.Database.{Db}
use lynk.Identity.Outside.{new_email}
use lynk.Identity.Domain.{new_user_id, new_user, pull_events}
use lynk.Identity.Atomicity.Commands.{registration, execute, execute_atomic}
use lynk.Identity.Samples.{sample, lifetimes, world}

-- The commit of the registration's transaction fails.
abbrev failing : World Db
failing = record world { faults = false ∷ false ∷ false ∷ false ∷ false ∷ false ∷ true ∷ [] }

commit_fails :
    (execute sample lifetimes (registration (codes "bob@x") (codes "pw") (codes "Bob")) failing).0
    ≡ err infrastructure
unfolding execute register new_email new_user_id new_user bytes_eq trim_space attempt draw pure
    raise lift get_now get_db put_db within_transaction create_user publish hash_password
    pull_events
commit_fails = refl

execute_atomic_example :
    (execute sample lifetimes
      (registration (codes "bob@x") (codes "pw") (codes "Bob"))
      failing).1.db
    ≡ world.db
execute_atomic_example =
    execute_atomic sample lifetimes (registration (codes "bob@x") (codes "pw") (codes "Bob"))
      failing infrastructure refl commit_fails
