-- ===== src/Platform/Breaker/Tests.antt =====
-- The theorems on the breaker (platform/breaker/breaker.go) at concrete inputs.
use lynk.Base.{pos, ◌≡◌, refl, List, [], ◌∷◌, arith, min}
use lynk.Platform.Breaker.{
  Breaker, new, closed, open_circuit, half_open, failed, run, enters, reads, returns, Event,
}
use lynk.Platform.Breaker.Invariant.{IsValid, new-IsValid, run-IsValid}
use lynk.Platform.Breaker.Opening.{failing_calls, last_time, count_calls, failing_calls_open}
use lynk.Platform.Breaker.Probing.{admissions, count, admissions_after_timeout}

abbrev two_strikes : Breaker
two_strikes = record {
  cfg = record { failure_threshold = 2; open_timeout = 10; half_open_max = 3 };
  state = closed;
  failures = 0;
  opened_at = 0;
  probes = 0;
}

abbrev tripped : Breaker
tripped = record two_strikes { state = open_circuit; opened_at = 4 }

abbrev probing : Breaker
probing = record two_strikes { state = half_open; probes = 1 }

tripped-IsValid : IsValid tripped
tripped-IsValid = omega arith

abbrev mixed_events : List Event
mixed_events = enters 1 ∷ enters 2 ∷ returns 3 failed ∷ returns 4 failed ∷ reads 20 ∷ enters 21 ∷ []

run-IsValid_example : IsValid (run (new (pos 2) (pos 10) (pos 0)) mixed_events)
run-IsValid_example =
    run-IsValid (new (pos 2) (pos 10) (pos 0)) mixed_events (new-IsValid (pos 2) (pos 10) (pos 0))

failing_calls_open_example : failing_calls two_strikes ((1, 2) ∷ (3, 4) ∷ []) ≡ record two_strikes {
  state = open_circuit;
  opened_at = last_time 0 ((1, 2) ∷ (3, 4) ∷ []);
  failures = 0;
  probes = 0;
}
unfolding count_calls
failing_calls_open_example =
    failing_calls_open two_strikes ((1, 2) ∷ (3, 4) ∷ []) refl (omega arith) refl

admissions_after_timeout_example :
    (admissions tripped (14 ∷ 15 ∷ 15 ∷ 16 ∷ [])).0 ≡ min (count (14 ∷ 15 ∷ 15 ∷ 16 ∷ [])) 3
admissions_after_timeout_example =
    admissions_after_timeout tripped 14 (15 ∷ 15 ∷ 16 ∷ []) tripped-IsValid refl (omega arith)
