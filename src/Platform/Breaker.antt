-- ===== src/Platform/Breaker.antt =====
-- The circuit breaker (services/core/internal/platform/breaker/breaker.go). Times are readings of
-- one monotonic clock, given to the methods that read it; `int` counters do not wrap.
mod Invariant
mod Opening
mod Probing
mod Tests
use lynk.Base.{
  ℕ, suc, ◌+◌, ◌-◌, ◌*◌, ◌^◌, Bool, true, false, ◌&&◌, List, [], ◌∷◌, ℤ, leb, positive_or,
  if◌then◌else◌,
}

pub data State : Type 0 where
  closed open_circuit half_open : State

-- `Config` with the defaults applied, so every field is positive.
pub record Config : Type 0 where
  pub failure_threshold : ℕ
  pub open_timeout : ℕ
  pub half_open_max : ℕ

pub record Breaker : Type 0 where
  pub cfg : Config
  pub state : State
  pub failures : ℕ
  pub opened_at : ℕ
  pub probes : ℕ

-- thirty seconds, in nanoseconds
abbrev pub default_timeout : ℕ
default_timeout = 30 * 10 ^ 9

pub new : ℤ → ℤ → ℤ → Breaker
new threshold timeout probes = record {
  cfg = record {
    failure_threshold = positive_or 5 threshold;
    open_timeout = positive_or default_timeout timeout;
    half_open_max = positive_or 1 probes;
  };
  state = closed;
  failures = 0;
  opened_at = 0;
  probes = 0;
}

abbrev pub is_open : State → Bool
is_open open_circuit = true
is_open _ = false

abbrev pub is_half_open : State → Bool
is_half_open half_open = true
is_half_open _ = false

-- The difference stops at 0; a timeout is positive, so the test fails there as it does in Go.
pub refresh : ℕ → Breaker → Breaker
refresh now b =
    if is_open b.state && leb b.cfg.open_timeout (now - b.opened_at)
    then record b { state = half_open; probes = 0 }
    else b

admit : State → Breaker → Bool × Breaker
admit open_circuit b = (false, b)
admit half_open b =
    if leb b.cfg.half_open_max b.probes
    then (false, b)
    else (true, record b { probes = b.probes + 1 })
admit closed b = (true, b)

-- `true` is a nil error, `false` is `ErrOpen`.
pub allow : ℕ → Breaker → Bool × Breaker
unfolding refresh admit
allow now b = let r = refresh now b in admit r.state r

-- The method `State`.
pub current_state : ℕ → Breaker → State × Breaker
unfolding refresh
current_state now b = let r = refresh now b in (r.state, r)

pub record_success : Breaker → Breaker
record_success b = record b {
  state = if is_half_open b.state then closed else b.state;
  failures = 0;
}

pub trip : ℕ → Breaker → Breaker
trip now b = record b { state = open_circuit; opened_at = now; failures = 0; probes = 0 }

pub record_failure : ℕ → Breaker → Breaker
unfolding trip
record_failure now b =
    if is_half_open b.state
    then trip now b
    else let c = record b { failures = b.failures + 1 } in
      if leb b.cfg.failure_threshold c.failures then trip now c else c

-- What the dependency returned: nil, `context.Canceled`, or another error.
pub data Outcome : Type 0 where
  success canceled failed : Outcome

pub settle : ℕ → Outcome → Breaker → Breaker
unfolding record_success record_failure
settle now success b = record_success b
settle now canceled b = record_success b
settle now failed b = record_failure now b

-- `Do`, for one caller alone: admission at `now`, the result recorded at `later`. `none` is
-- `ErrOpen`, and then the dependency was not called.
pub data Reply : Type 0 where
  err_open : Reply
  returned : Outcome → Reply

pub do_call : ℕ → ℕ → Outcome → Breaker → Reply × Breaker
unfolding allow settle
do_call now later outcome b =
    let (admitted, c) = allow now b in
    if admitted then (returned outcome, settle later outcome c) else (err_open, c)

-- Many callers at once: admissions, state reads and results arrive in any order, each at its time.
pub data Event : Type 0 where
  enters : ℕ → Event
  reads : ℕ → Event
  returns : ℕ → Outcome → Event

pub step : Breaker → Event → Breaker
unfolding allow current_state settle
step b (enters now) = (allow now b).1
step b (reads now) = (current_state now b).1
step b (returns now outcome) = settle now outcome b

pub run : Breaker → List Event → Breaker
run b [] = b
run b (e ∷ es) = run (step b e) es
