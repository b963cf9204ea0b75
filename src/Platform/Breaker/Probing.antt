-- ===== src/Platform/Breaker/Probing.antt =====
-- Half-open probing (platform/breaker/breaker.go).
use lynk.Base.{ℕ, suc, ◌+◌, ◌-◌, ◌≤◌, ◌<◌, min, ◌≡◌, refl, List, [], ◌∷◌, Bool, true, false, arith}
use native.Mathlib.Decide.{dec_lt}
use lynk.Platform.Breaker.{
  Breaker, success, canceled, failed, closed, open_circuit, half_open, do_call, allow,
}
use lynk.Platform.Breaker.Invariant.{IsValid}

abbrev tally : Bool → ℕ × Breaker → ℕ × Breaker
tally true (n, b) = (suc n, b)
tally false (n, b) = (n, b)

-- Callers that ask one after another while no result comes back; how many were admitted.
pub admissions : Breaker → List ℕ → ℕ × Breaker
admissions b [] = (0, b)
admissions b (now ∷ ts) = let asked = allow now b in tally asked.0 (admissions asked.1 ts)

pub count : List ℕ → ℕ
count [] = 0
count (x ∷ xs) = suc (count xs)

admit_more :
    (b : Breaker) (now : ℕ)
    → b.state ≡ half_open
    → b.probes < b.cfg.half_open_max
    → allow now b ≡ (true, record b { probes = b.probes + 1 })
unfolding allow
admit_more b now s h = ground arith

admit_no_more :
    (b : Breaker) (now : ℕ)
    → b.state ≡ half_open
    → b.cfg.half_open_max ≤ b.probes
    → allow now b ≡ (false, b)
unfolding allow
admit_no_more b now s h = ground arith

admissions_full :
    (b : Breaker) (ts : List ℕ)
    → b.state ≡ half_open
    → b.cfg.half_open_max ≤ b.probes
    → (admissions b ts).0 ≡ 0
unfolding admissions
admissions_full b [] s h = refl
admissions_full b (now ∷ ts) s h =
    rw (admissions, admit_no_more b now s h) (admissions_full b ts s h)

admissions_half_open :
    (b : Breaker) (ts : List ℕ)
    → b.state ≡ half_open
    → (admissions b ts).0 ≡ min (count ts) (b.cfg.half_open_max - b.probes)
unfolding admissions count
admissions_half_open b [] s = omega arith
admissions_half_open b (now ∷ ts) s = elim (dec_lt b.probes b.cfg.half_open_max) [
  | yes p ↦
      rw (admissions, admit_more b now s p)
        (omega (arith, admissions_half_open (record b { probes = b.probes + 1 }) ts s))
  | no p ↦
      rw (admissions, admit_no_more b now s (omega arith))
        (omega (arith, admissions_full b ts s (omega arith)))
]

first_probe :
    (b : Breaker) (now : ℕ)
    → IsValid b
    → b.state ≡ open_circuit
    → b.opened_at + b.cfg.open_timeout ≤ now
    → allow now b ≡ (true, record b { state = half_open; probes = 1 })
unfolding allow
first_probe b now v s h = ground arith

-- When the timeout of an open breaker has passed, and no result comes back meanwhile, then of the
-- callers that ask exactly as many are let through as the half-open cap allows: all of them, or as
-- many as the cap.
pub admissions_after_timeout :
    (b : Breaker) (now : ℕ) (ts : List ℕ)
    → IsValid b
    → b.state ≡ open_circuit
    → b.opened_at + b.cfg.open_timeout ≤ now
    → (admissions b (now ∷ ts)).0 ≡ min (count (now ∷ ts)) b.cfg.half_open_max
unfolding admissions count
admissions_after_timeout b now ts v s h =
    rw (admissions, first_probe b now v s h)
      (omega (
        arith,
        v.half_open_pos,
        admissions_half_open (record b { state = half_open; probes = 1 }) ts refl,
      ))

-- What one probe decides: a half-open breaker with a free probe calls the dependency, and then a
-- success or a cancellation closes the circuit, and a failure opens it from the time of the result.
pub probe_decides :
    (b : Breaker) (now later : ℕ)
    → b.state ≡ half_open
    → b.probes < b.cfg.half_open_max
    → ((do_call now later success b).1.state ≡ closed)
      × ((do_call now later canceled b).1.state ≡ closed)
      × ((do_call now later failed b).1
          ≡ record b { state = open_circuit; opened_at = later; failures = 0; probes = 0 })
unfolding do_call
probe_decides b now later s h = (ground arith, ground arith, ground arith)
