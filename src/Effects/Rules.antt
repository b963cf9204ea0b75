-- ===== src/Effects/Rules.antt =====
-- Rules for what an action leaves alone: the database as long as it only reads, and the database
-- on every error if its writes stand in one transaction (platform/postgres/tx.go).
use lynk.Base.{ap, ◌≡◌, refl, ◌∙◌, Bool, true, false, arith, ◌≢◌, if◌then◌else◌}
use lynk.Effects.{
  World, App, Result, Error, ok, err, pure, raise, lift, get_now, get_db, put_db, attempt, calm,
  draw, continue, ◌>>=◌, handle, within_transaction, open_tx,
}

-- `m` changes neither the database nor whether a transaction is open.
pub record LeavesDb {D A : Type 0} (m : App D A) : Type 0 where
  pub db : (w : World D) → (m w).1.db ≡ w.db
  pub tx : (w : World D) → (m w).1.in_tx ≡ w.in_tx

-- Called with no transaction open, `m` leaves the database as it was whenever it returns an error.
pub record IsAtomic {D A : Type 0} (m : App D A) : Type 0 where
  pub at : (w : World D) → w.in_tx ≡ false → (e : Error) → (m w).0 ≡ err e → (m w).1.db ≡ w.db

pub record NeverFails {D A : Type 0} (m : App D A) : Type 0 where
  pub at : (w : World D) (e : Error) → (m w).0 ≢ err e

module _ {D A : Type 0} where
  pub LeavesDb-pure : (a : A) → LeavesDb {D = D} (pure a)
  unfolding pure
  LeavesDb-pure a = record { db = λ w. refl; tx = λ w. refl }

  pub LeavesDb-raise : (e : Error) → LeavesDb {D = D} {A = A} (raise e)
  unfolding raise
  LeavesDb-raise e = record { db = λ w. refl; tx = λ w. refl }

  pub LeavesDb-lift : (r : Result A) → LeavesDb {D = D} (lift r)
  unfolding lift
  LeavesDb-lift r = record { db = λ w. refl; tx = λ w. refl }

  pub NeverFails-pure : (a : A) → NeverFails {D = D} (pure a)
  unfolding pure
  NeverFails-pure a = record { at = λ w e h. cc }

  pub IsAtomic-NeverFails : {m : App D A} → NeverFails m → IsAtomic m
  IsAtomic-NeverFails h = record { at = λ w _ e failed. absurd (h.at w e failed) }

  pub IsAtomic-LeavesDb : {m : App D A} → LeavesDb m → IsAtomic m
  IsAtomic-LeavesDb h = record { at = λ w _ _ _. h.db w }

  pub IsAtomic-within_transaction : (m : App D A) → IsAtomic (within_transaction m)
  unfolding within_transaction
  IsAtomic-within_transaction m = record { at = λ w closed e failed. rolled_back w closed e failed }
    where
      rolled_back :
          (w : World D)
          → w.in_tx ≡ false
          → (e : Error) → (within_transaction m w).0 ≡ err e
          → (within_transaction m w).1.db ≡ w.db
      rolled_back w closed e failed = ground arith

module _ {D : Type 0} where
  pub LeavesDb-get_now : LeavesDb {D = D} get_now
  unfolding get_now
  LeavesDb-get_now = record { db = λ w. refl; tx = λ w. refl }

  pub LeavesDb-get_db : LeavesDb {D = D} get_db
  unfolding get_db
  LeavesDb-get_db = record { db = λ w. refl; tx = λ w. refl }

  pub NeverFails-put_db : (d : D) → NeverFails (put_db d)
  unfolding put_db
  NeverFails-put_db d = record { at = λ w e h. cc }

  attempt_leaves : (w : World D) → ((attempt w).1.db ≡ w.db) × ((attempt w).1.in_tx ≡ w.in_tx)
  unfolding attempt
  attempt_leaves w = ground arith

  pub LeavesDb-attempt : LeavesDb {D = D} attempt
  LeavesDb-attempt = record { db = λ w. (attempt_leaves w).0; tx = λ w. (attempt_leaves w).1 }

  draw_leaves : (w : World D) → ((draw w).1.db ≡ w.db) × ((draw w).1.in_tx ≡ w.in_tx)
  unfolding draw
  draw_leaves w = ground arith

  pub LeavesDb-draw : LeavesDb {D = D} draw
  LeavesDb-draw = record { db = λ w. (draw_leaves w).0; tx = λ w. (draw_leaves w).1 }

module _ {D A B : Type 0} where
  pub LeavesDb-handle :
      (m : App D A) (f : Result A → App D B)
      → LeavesDb m
      → ((r : Result A) → LeavesDb (f r))
      → LeavesDb (handle m f)
  LeavesDb-handle m f km kf = record {
    db = λ w. (kf (m w).0).db (m w).1 ∙ km.db w;
    tx = λ w. (kf (m w).0).tx (m w).1 ∙ km.tx w;
  }

  LeavesDb-continue :
      (r : Result A) (f : A → App D B) → ((a : A) → LeavesDb (f a)) → LeavesDb (continue r f)
  LeavesDb-continue (ok a) f kf = kf a
  LeavesDb-continue (err e) f kf = record { db = λ w. refl; tx = λ w. refl }

  pub LeavesDb-bind :
      (m : App D A) (f : A → App D B) → LeavesDb m → ((a : A) → LeavesDb (f a)) → LeavesDb (m >>= f)
  LeavesDb-bind m f km kf = LeavesDb-handle m (λ r. continue r f) km (λ r. LeavesDb-continue r f kf)

  pub IsAtomic-handle :
      (m : App D A) (f : Result A → App D B)
      → LeavesDb m
      → ((r : Result A) → IsAtomic (f r))
      → IsAtomic (handle m f)
  IsAtomic-handle m f km kf = record {
    at = λ w closed e failed. (kf (m w).0).at (m w).1 (km.tx w ∙ closed) e failed ∙ km.db w;
  }

  IsAtomic-continue :
      (r : Result A) (f : A → App D B) → ((a : A) → IsAtomic (f a)) → IsAtomic (continue r f)
  IsAtomic-continue (ok a) f kf = kf a
  IsAtomic-continue (err e) f kf = record { at = λ w _ _ _. refl }

  pub IsAtomic-bind :
      (m : App D A) (f : A → App D B) → LeavesDb m → ((a : A) → IsAtomic (f a)) → IsAtomic (m >>= f)
  IsAtomic-bind m f km kf = IsAtomic-handle m (λ r. continue r f) km (λ r. IsAtomic-continue r f kf)

  never_both :
      (r : Result A) (f : A → App D B) (v : World D) (e : Error)
      → ((a : A) → NeverFails (f a))
      → (continue r f v).0 ≡ err e
      → (x : Error) × (r ≡ err x) × ((continue r f v).1 ≡ v)
  never_both (ok a) f v e kf h = absurd ((kf a).at v e h)
  never_both (err x) f v e kf h = (x, refl, refl)

  NeverFails-continue :
      (r : Result A) (f : A → App D B) (v : World D) (e : Error)
      → ((x : Error) → r ≢ err x)
      → ((a : A) → NeverFails (f a))
      → (continue r f v).0 ≢ err e
  NeverFails-continue (ok a) f v e km kf = (kf a).at v e
  NeverFails-continue (err x) f v e km kf = absurd (km x refl)

  pub NeverFails-bind :
      (m : App D A) (f : A → App D B)
      → NeverFails m
      → ((a : A) → NeverFails (f a))
      → NeverFails (m >>= f)
  NeverFails-bind m f km kf = record {
    at = λ w e. NeverFails-continue (m w).0 f (m w).1 e (km.at w) kf;
  }

  -- After the transaction nothing can fail any more.
  pub IsAtomic-then :
      (m : App D A) (f : A → App D B)
      → IsAtomic m
      → ((a : A) → NeverFails (f a))
      → IsAtomic (m >>= f)
  IsAtomic-then m f km kf = record {
    at = λ w closed e failed.
        let (x, raised, same) = never_both (m w).0 f (m w).1 e kf failed in
        rw same (km.at w closed x raised);
  }

module _ {D A : Type 0} where
  pub LeavesDb-if :
      (b : Bool) (m n : App D A) → LeavesDb m → LeavesDb n → LeavesDb (if b then m else n)
  LeavesDb-if true m n km kn = km
  LeavesDb-if false m n km kn = kn

  pub IsAtomic-if :
      (b : Bool) (m n : App D A) → IsAtomic m → IsAtomic n → IsAtomic (if b then m else n)
  IsAtomic-if true m n km kn = km
  IsAtomic-if false m n km kn = kn

pub ruleset leaves_rules = (
  LeavesDb-pure, LeavesDb-raise, LeavesDb-lift, LeavesDb-get_now, LeavesDb-get_db, LeavesDb-attempt,
  LeavesDb-draw, LeavesDb-bind, LeavesDb-handle, LeavesDb-if,
)

pub ruleset atomic_rules = (
  leaves_rules, IsAtomic-within_transaction, IsAtomic-bind, IsAtomic-handle, IsAtomic-then,
  IsAtomic-if, IsAtomic-LeavesDb, IsAtomic-NeverFails, NeverFails-pure, NeverFails-put_db,
  NeverFails-bind,
)

-- A transaction whose body succeeds without a fault commits what the body wrote.
pub within_transaction_ok :
    {D A : Type 0} (m : App D A) (w v : World D) (a : A)
    → w.in_tx ≡ false
    → m (record (calm w) { in_tx = true }) ≡ (ok a, calm v)
    → within_transaction m (calm w) ≡ (ok a, record (calm v) { in_tx = false })
unfolding within_transaction attempt
within_transaction_ok m w v a closed body = rw (closed, body)

pub within_transaction-open_tx :
    {D A : Type 0} (m : App D A) (w : World D)
    → w.in_tx ≡ false
    → within_transaction m w ≡ open_tx (attempt w).0 m (attempt w).1
unfolding within_transaction
within_transaction-open_tx m w closed =
    ap (λ b. if b then m w else open_tx (attempt w).0 m (attempt w).1) closed
