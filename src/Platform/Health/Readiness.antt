-- ===== src/Platform/Health/Readiness.antt =====
-- What the readiness probe says.
use lynk.Base.{
  ◌≡◌, sym, ap, ◌∙◌, Bytes, codes, Bool, true, false, ◌&&◌, List, [], ◌∷◌, ◌++◌, append_assoc,
  append-nil, map, Option, none, some, if◌then◌else◌,
}
use lynk.Platform.Health.{Checks, run_checks, readiness}

abbrev all_pass : Checks → Bool
all_pass [] = true
all_pass ((name, none) ∷ cs) = all_pass cs
all_pass ((name, some text) ∷ cs) = false

abbrev result_of : Option Bytes → Bytes
result_of none = codes "ok"
result_of (some text) = codes "down: " ++ text

run_checks_lem :
    (healthy : Bool) (results : List (Bytes × Bytes)) (cs : Checks)
    → run_checks healthy results cs ≡ record {
      status = if healthy && all_pass cs then 200 else 503;
      results = results ++ map (λ c. (c.0, result_of c.1)) cs;
    }
unfolding run_checks
run_checks_lem true results [] =
    ap (λ r. record { status = 200; results = r }) (sym (append-nil results))
run_checks_lem false results [] =
    ap (λ r. record { status = 503; results = r }) (sym (append-nil results))
run_checks_lem true results ((name, some text) ∷ cs) =
    run_checks_lem false (results ++ (name, result_of (some text)) ∷ []) cs
    ∙ ap (λ r. record { status = 503; results = r })
        (append_assoc results ((name, result_of (some text)) ∷ [])
          (map (λ c. (c.0, result_of c.1)) cs))
run_checks_lem false results ((name, some text) ∷ cs) =
    run_checks_lem false (results ++ (name, result_of (some text)) ∷ []) cs
    ∙ ap (λ r. record { status = 503; results = r })
        (append_assoc results ((name, result_of (some text)) ∷ [])
          (map (λ c. (c.0, result_of c.1)) cs))
run_checks_lem healthy results ((name, none) ∷ cs) =
    run_checks_lem healthy (results ++ (name, result_of none) ∷ []) cs
    ∙ ap (λ r. record { status = if healthy && all_pass cs then 200 else 503; results = r })
        (append_assoc results ((name, result_of none) ∷ []) (map (λ c. (c.0, result_of c.1)) cs))

-- The probe names every dependency with its own outcome, and is 200 if all of them pass and 503
-- otherwise.
readiness_lem :
    (cs : Checks)
    → readiness cs ≡ record {
      status = if all_pass cs then 200 else 503;
      results = map (λ c. (c.0, result_of c.1)) cs;
    }
unfolding readiness
readiness_lem cs = run_checks_lem true [] cs
