-- ===== src/Effects.antt =====
-- What the use cases of services/core act on: the database, Redis, the clock, the entropy source.
-- Every call that leaves the process takes its outcome from `faults`, `true` for a call that
-- fails; when the list has run out, calls succeed. The clock stands still within one use case.
-- `WithinTransaction` is platform/postgres/tx.go: a failed commit has changed nothing, and nothing
-- panics.
pub mod Redis
pub mod Rules
use lynk.Base.{
  ℕ, suc, ◌+◌, ◌*◌, ◌^◌, Bytes, Bool, true, false, List, [], ◌∷◌, ◌++◌, Option, none, some,
  if◌then◌else◌,
}
use Redis.{Cell}

-- The sentinel errors of the modules, the coded errors of the authz handlers, the sentinels that a
-- repository wraps when a stored row does not validate, and `infrastructure` for every other failure
-- below them.
pub data Error : Type 0 where
  user_not_found email_taken invalid_credentials account_locked account_disabled : Error
  refresh_token_invalid concurrent_update invalid_otp api_key_not_found : Error
  missing_name invalid_role invalid_email invalid_user_id : Error
  note_not_found invalid_note_id invalid_title missing_owner : Error
  unauthenticated admin_required invalid_input invalid_condition policy_not_found internal : Error
  corrupt_user_id corrupt_user_email corrupt_note_id corrupt_note_title : Error
  infrastructure : Error

pub data Result {ℓ} (A : Type ℓ) : Type ℓ where
  ok : A → Result A
  err : Error → Result A

pub record World (D : Type 0) : Type 0 where
  pub db : D
  pub in_tx : Bool
  pub redis : Bytes → Option Cell
  pub now : ℕ
  pub draws : ℕ
  pub faults : List Bool
  pub published : List Bytes
  pub mails : List (Bytes × Bytes)

abbrev pub App : Type 0 → Type 0 → Type 0
App D A = World D → Result A × World D

-- Nanoseconds, as in `time.Duration`.
abbrev pub seconds : ℕ → ℕ
seconds n = n * 10 ^ 9

abbrev pub minutes : ℕ → ℕ
minutes n = n * (60 * 10 ^ 9)

-- No call fails from here on.
abbrev pub calm : {D : Type 0} → World D → World D
calm w = record w { faults = [] }

module _ {D : Type 0} where
  module _ {A : Type 0} where
    unfoldable pub pure : A → App D A
    pure a w = (ok a, w)

    unfoldable pub raise : Error → App D A
    raise e w = (err e, w)

    unfoldable pub lift : Result A → App D A
    lift r w = (r, w)

  unfoldable pub get_now : App D ℕ
  get_now w = (ok w.now, w)

  unfoldable pub get_db : App D D
  get_db w = (ok w.db, w)

  unfoldable pub put_db : D → App D (Unit {0})
  put_db d w = (ok tt, record w { db = d })

  outcome : List Bool → World D → Result (Unit {0}) × World D
  outcome [] w = (ok tt, w)
  outcome (true ∷ fs) w = (err infrastructure, record w { faults = fs })
  outcome (false ∷ fs) w = (ok tt, record w { faults = fs })

  -- One call that leaves the process, before what it does.
  unfoldable pub attempt : App D (Unit {0})
  unfolding outcome
  attempt w = outcome w.faults w

  -- `crypto/rand`: the next value of the source, or an error.
  next_draw : Result (Unit {0}) → World D → Result ℕ × World D
  next_draw (ok _) w = (ok w.draws, record w { draws = w.draws + 1 })
  next_draw (err e) w = (err e, w)

  unfoldable pub draw : App D ℕ
  unfolding attempt next_draw
  draw w = let (r, v) = attempt w in next_draw r v

module _ {D A B : Type 0} where
  abbrev pub continue : Result A → (A → App D B) → App D B
  continue (ok a) f w = f a w
  continue (err e) f w = (err e, w)

  infixl 10 ◌>>=◌ ◌>>◌
  abbrev pub ◌>>=◌ : App D A → (A → App D B) → App D B
  ◌>>=◌ m f w = let r = m w in continue r.0 f r.1

  abbrev pub ◌>>◌ : App D A → App D B → App D B
  m >> n = m >>= λ _. n

  -- `if value, err := m; err != nil { … } else { … }`: the handler sees both outcomes.
  abbrev pub handle : App D A → (Result A → App D B) → App D B
  handle m f w = let r = m w in f r.0 r.1

module _ {D A : Type 0} where
  -- On the result of COMMIT.
  unfoldable pub committed : D → A → Result (Unit {0}) → World D → Result A × World D
  committed before a (ok _) w = (ok a, record w { in_tx = false })
  committed before a (err e) w = (err e, record w { db = before; in_tx = false })

  unfoldable pub settle : D → Result A → World D → Result A × World D
  unfolding attempt committed
  settle before (err e) w = (err e, record w { db = before; in_tx = false })
  settle before (ok a) w = let c = attempt w in committed before a c.0 c.1

  unfoldable pub open_tx : Result (Unit {0}) → App D A → World D → Result A × World D
  unfolding settle
  open_tx (err e) m w = (err e, w)
  open_tx (ok _) m w = let r = m (record w { in_tx = true }) in settle w.db r.0 r.1

  -- Joins the open transaction, or begins one, rolls it back on an error and commits otherwise.
  unfoldable pub within_transaction : App D A → App D A
  unfolding open_tx attempt
  within_transaction m w =
      if w.in_tx then m w else (let begun = attempt w in open_tx begun.0 m begun.1)
