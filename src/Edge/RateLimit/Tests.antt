-- ===== src/Edge/RateLimit/Tests.antt =====
-- The theorems on rate limits at concrete inputs.
use lynk.Base.{ℕ, ◌+◌, ◌*◌, ◌%◌, ◌⊎◌, ◌≤◌, ◌≡◌, refl, Bytes, codes, List, [], ◌∷◌, arith, leb}
use lynk.Effects.{calm, ok}
use lynk.Edge.Http.{Handler}
use lynk.Edge.RateLimit.{allow, minute_ms}
use lynk.Edge.RateLimit.Window.{serve, admitted, left, estimate, allow-estimate, admitted-limit}
use lynk.Edge.Samples.{gateway, noon}

abbrev times : List ℕ
times = (noon + 2000000000) ∷ (noon + 1000000000) ∷ noon ∷ []

allow-estimate_example :
    (total : ℕ) × ((allow
        (codes "ip:a")
        3
        minute_ms
        (record (calm (serve (codes "ip:a") 3 times gateway)) { now = noon + 61000000000 })).0
      ≡ ok (leb total 3))
    × ((total ≡ estimate (noon + 61000000000) ((noon + 61000000000) ∷ times))
        ⊎ ((total + 1 ≡ estimate (noon + 61000000000) ((noon + 61000000000) ∷ times))
            × (3 * left (noon + 61000000000) % minute_ms ≡ 0)))
allow-estimate_example =
    allow-estimate (codes "ip:a") 3 gateway times (noon + 61000000000) (λ k. refl) (omega arith)
      (omega arith) (omega arith)

-- Three requests of the minute before, of which 59 parts in 60 are still in the window, and one.
estimate_run : estimate (noon + 61000000000) ((noon + 61000000000) ∷ times) ≡ 3
estimate_run = refl

admitted-limit_example : admitted (codes "ip:a") 2 1440 times gateway ≤ 2
admitted-limit_example =
    admitted-limit (codes "ip:a") 2 gateway times 1440 (λ k. refl) (omega arith) (omega arith)

abbrev done : Handler
done r w = (ok tt, w)

abbrev walked : List (Bytes × ℕ)
walked =
    (codes "Register", 20)
    ∷ (codes "Login", 10)
    ∷ (codes "RequestPasswordReset", 10)
    ∷ (codes "ResetPassword", 10)
    ∷ (codes "RequestEmailVerification", 10)
    ∷ (codes "VerifyEmail", 10)
    ∷ (codes "ValidateAPIKey", 120)
    ∷ []
