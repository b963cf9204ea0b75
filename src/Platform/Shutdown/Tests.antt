-- ===== src/Platform/Shutdown/Tests.antt =====
-- A shutdown in which a hook fails.
use lynk.Base.{ℕ, suc, ◌≡◌, refl, true, false, codes, [], ◌∷◌, pos}
use lynk.Platform.Shutdown.{Hook, new_manager, register_hook, run_hooks}

-- A server that fails to stop does not keep the pool from being closed.
abbrev server : Hook ℕ
server = record { name = codes "server"; run = λ s. (true, s) }

abbrev database : Hook ℕ
database = record { name = codes "database"; run = λ s. (false, suc s) }

runs_in_reverse :
    run_hooks (register_hook database (register_hook server (new_manager (pos 0)))) 0
    ≡ ((codes "database", false) ∷ (codes "server", true) ∷ [], 1)
unfolding run_hooks register_hook new_manager
runs_in_reverse = refl
