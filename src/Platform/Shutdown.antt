-- ===== src/Platform/Shutdown.antt =====
-- Graceful teardown (services/core/internal/platform/shutdown/shutdown.go; the gateway keeps a copy).
-- A hook is a step on the state of the process, with whether it failed; its deadline is its own affair.
pub mod Hooks
mod Tests
use lynk.Base.{
  ℕ, zero, suc, ◌*◌, ◌^◌, Bytes, Bool, List, [], ◌∷◌, ◌++◌, Option, none, some, ℤ, positive_or,
  length, get_elem?,
}
use lynk.Effects.{seconds}

pub record Hook (S : Type 0) : Type 0 where
  pub name : Bytes
  pub run : S → Bool × S

pub record Manager (S : Type 0) : Type 0 where
  pub hooks : List (Hook S)
  pub timeout : ℕ

unfoldable pub new_manager : {S : Type 0} → ℤ → Manager S
new_manager timeout = record { hooks = []; timeout = positive_or (seconds 15) timeout }

module _ {S : Type 0} where
  unfoldable pub register_hook : Hook S → Manager S → Manager S
  register_hook h m = record m { hooks = m.hooks ++ h ∷ [] }

  -- What is logged of one hook, and the state after it.
  abbrev logged : Hook S → S → (Bytes × Bool) × S
  logged h s = let r = h.run s in ((h.name, r.0), r.1)

  -- One round; `rest` are the rounds after it.
  abbrev pub run_hook :
      Option (Hook S) → (S → List (Bytes × Bool) × S) → S → List (Bytes × Bool) × S
  run_hook none rest s = rest s
  run_hook (some h) rest s = let r = logged h s in let after = rest r.1 in (r.0 ∷ after.0, after.1)

  -- The loop over the snapshot, from the index below `n` down to 0.
  unfoldable pub run_below : List (Hook S) → ℕ → S → List (Bytes × Bool) × S
  run_below snapshot zero s = ([], s)
  run_below snapshot (suc i) s = run_hook (get_elem? snapshot i) (run_below snapshot i) s

  -- Run: what it logs of the hooks, in order, and the state that they leave.
  unfoldable pub run_hooks : Manager S → S → List (Bytes × Bool) × S
  unfolding run_below
  run_hooks m s = run_below m.hooks (length m.hooks) s
