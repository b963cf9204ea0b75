-- ===== src/Platform/Health.antt =====
-- Liveness and readiness (services/core/internal/platform/health/health.go; the gateway keeps a copy).
-- A check is its outcome within the deadline: `none`, or the text of its error. The checks are a map in
-- the source; here they are a list without a name twice, in the order in which Go walks the map.
pub mod Readiness
use lynk.Base.{
  ℕ, Bytes, codes, Bool, true, false, not, List, [], ◌∷◌, ◌++◌, Option, none, some, filter,
  bytes_eq, if◌then◌else◌,
}

abbrev pub Checks : Type 0
Checks = List (Bytes × Option Bytes)

-- Register, which replaces a check of the same name.
unfoldable pub register_check : Bytes → Option Bytes → Checks → Checks
unfolding bytes_eq
register_check name outcome checks =
    filter (λ c. not (bytes_eq c.0 name)) checks ++ (name, outcome) ∷ []

pub record Reply : Type 0 where
  pub status : ℕ
  pub results : List (Bytes × Bytes)

abbrev pub liveness : Reply
liveness = record { status = 200; results = (codes "status", codes "ok") ∷ [] }

-- The loop over the checks, with `healthy` and `results` so far.
unfoldable pub run_checks : Bool → List (Bytes × Bytes) → Checks → Reply
run_checks healthy results [] = record {
  status = if not healthy then 503 else 200;
  results = results;
}
run_checks healthy results ((name, some text) ∷ cs) =
    run_checks false (results ++ (name, codes "down: " ++ text) ∷ []) cs
run_checks healthy results ((name, none) ∷ cs) =
    run_checks healthy (results ++ (name, codes "ok") ∷ []) cs

unfoldable pub readiness : Checks → Reply
unfolding run_checks
readiness checks = run_checks true [] checks
