-- ===== src/Platform/Breaker/Opening.antt =====
-- When a breaker (platform/breaker/breaker.go) opens, and that an open one fails fast.
use lynk.Base.{ℕ, suc, ◌+◌, ◌<◌, ◌≡◌, List, [], ◌∷◌, arith}
use lynk.Platform.Breaker.Invariant.{IsValid}
use lynk.Platform.Breaker.{Breaker, Outcome, failed, closed, open_circuit, err_open, do_call}

-- One call after another, each at its pair of times, and the dependency fails every time.
pub failing_calls : Breaker → List (ℕ × ℕ) → Breaker
failing_calls b [] = b
failing_calls b ((now, later) ∷ ts) = failing_calls (do_call now later failed b).1 ts

fail_once :
    (b : Breaker) (now later : ℕ)
    → b.state ≡ closed
    → suc (b.failures) < b.cfg.failure_threshold
    → (do_call now later failed b).1 ≡ record b { failures = b.failures + 1 }
unfolding do_call
fail_once b now later c h = ground arith

fail_last :
    (b : Breaker) (now later : ℕ)
    → b.state ≡ closed
    → suc (b.failures) ≡ b.cfg.failure_threshold
    → (do_call now later failed b).1
      ≡ record b { state = open_circuit; opened_at = later; failures = 0; probes = 0 }
unfolding do_call
fail_last b now later c h = ground arith

pub last_time : ℕ → List (ℕ × ℕ) → ℕ
last_time t [] = t
last_time t ((now, later) ∷ ts) = last_time later ts

unfoldable pub count_calls : List (ℕ × ℕ) → ℕ
count_calls [] = 0
count_calls (x ∷ xs) = suc (count_calls xs)

-- A closed breaker with `f` failures in a row opens at exactly the call that makes them as many as
-- the threshold: if that many calls fail after one another, the breaker is then open, stamped with
-- the time of the last result, and it has no failures and no probes on its counters.
pub failing_calls_open :
    (b : Breaker) (ts : List (ℕ × ℕ))
    → b.state ≡ closed
    → b.failures < b.cfg.failure_threshold
    → b.failures + count_calls ts ≡ b.cfg.failure_threshold
    → failing_calls b ts ≡ record b {
      state = open_circuit;
      opened_at = last_time b.opened_at ts;
      failures = 0;
      probes = 0;
    }
unfolding failing_calls last_time count_calls
failing_calls_open b [] c h e = absurd (omega arith)
failing_calls_open b ((now, later) ∷ []) c h e = fail_last b now later c (omega arith)
failing_calls_open b ((now, later) ∷ x ∷ ts) c h e = rw (fail_once b now later c (omega arith)) (
    failing_calls_open (record b { failures = b.failures + 1 }) (x ∷ ts) c (omega arith)
      (omega arith))

-- While the circuit is open and the timeout has not passed, a call gets `ErrOpen`, whatever the
-- dependency would have answered, and the breaker is left as it was.
pub open-do_call :
    (b : Breaker) (now later : ℕ) (o : Outcome)
    → IsValid b
    → b.state ≡ open_circuit
    → now < b.opened_at + b.cfg.open_timeout
    → do_call now later o b ≡ (err_open, b)
unfolding do_call
open-do_call b now later o v s h = ground arith
