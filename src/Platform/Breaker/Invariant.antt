-- ===== src/Platform/Breaker/Invariant.antt =====
-- What holds of a breaker (platform/breaker/breaker.go) under any interleaving of callers.
use lynk.Base.{ℕ, ◌≤◌, ◌<◌, ℤ, arith, List, [], ◌∷◌, positive_or-pos}
use lynk.Platform.Breaker.{
  Breaker, Event, Outcome, enters, reads, returns, success, canceled, failed, new, allow,
  current_state, settle, step, run, default_timeout,
}

pub record IsValid (b : Breaker) : Type 0 where
  pub threshold_pos : 0 < b.cfg.failure_threshold
  pub timeout_pos : 0 < b.cfg.open_timeout
  pub half_open_pos : 0 < b.cfg.half_open_max
  pub failures_below : b.failures < b.cfg.failure_threshold
  pub probes_capped : b.probes ≤ b.cfg.half_open_max

pub new-IsValid : (threshold timeout probes : ℤ) → IsValid (new threshold timeout probes)
unfolding new
new-IsValid threshold timeout probes = record {
  threshold_pos = positive_or-pos 5 threshold (omega arith);
  timeout_pos = positive_or-pos default_timeout timeout (omega arith);
  half_open_pos = positive_or-pos 1 probes (omega arith);
  failures_below = positive_or-pos 5 threshold (omega arith);
  probes_capped = omega arith;
}

allow-IsValid : (now : ℕ) (b : Breaker) → IsValid b → IsValid (allow now b).1
unfolding allow
allow-IsValid now b v = ground arith

settle-IsValid : (now : ℕ) (o : Outcome) (b : Breaker) → IsValid b → IsValid (settle now o b)
unfolding settle
settle-IsValid now success b v = ground arith
settle-IsValid now canceled b v = ground arith
settle-IsValid now failed b v = ground arith

step-IsValid : (b : Breaker) (e : Event) → IsValid b → IsValid (step b e)
unfolding step
step-IsValid b (enters now) v = allow-IsValid now b v
step-IsValid b (reads now) v = unfold current_state in ground arith
step-IsValid b (returns now o) v = settle-IsValid now o b v

-- From a breaker whose failure count is below its threshold and whose probe count is within its
-- cap (both limits and the timeout positive), every sequence of admissions, state reads and results
-- leaves a breaker of which the same holds.
pub run-IsValid : (b : Breaker) (es : List Event) → IsValid b → IsValid (run b es)
unfolding run
run-IsValid b [] v = v
run-IsValid b (e ∷ es) v = run-IsValid (step b e) es (step-IsValid b e v)
