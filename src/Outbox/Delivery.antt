-- ===== src/Outbox/Delivery.antt =====
-- At-least-once delivery by the relay of an outbox.
use lynk.Base.{
  ℕ, ◌≡◌, refl, ap, ◌∙◌, Bytes, Bool, true, false, ◌&&◌, ◌||◌, List, [], ◌∷◌, ◌++◌, arith, any,
  bytes_eq, bytes_eq_iff, bytes_eq_refl,
}
use lynk.Effects.{
  World, App, Result, ok, err, pure, get_now, get_db, put_db, attempt, committed, settle, open_tx,
  continue, ◌>>=◌, ◌>>◌,
}
use lynk.Effects.Rules.{within_transaction-open_tx}
use lynk.Outbox.{
  Table, IsTable, is_unpublished, claim, mark, send, relay_one, relay_all, relay_batch,
}

abbrev pub on_bus : Bytes → List Bytes → Bool
on_bus id bus = any (bytes_eq id) bus

on_bus-append :
    (id new : Bytes) (bus : List Bytes) → on_bus id bus ≡ true → on_bus id (bus ++ new ∷ []) ≡ true
on_bus-append id new [] h = cc
on_bus-append id new (b ∷ bus) h = ground (arith, h, on_bus-append id new bus)

on_bus-sent : (id : Bytes) (bus : List Bytes) → on_bus id (bus ++ id ∷ []) ≡ true
on_bus-sent id [] = ground (arith, bytes_eq_refl id)
on_bus-sent id (b ∷ bus) = ground (arith, on_bus-sent id bus)

module _ {D R : Type 0} (t : Table D R) where
  -- A row that is marked as published is on the bus.
  abbrev pub all_backed : List Bytes → List R → Bool
  all_backed bus [] = true
  all_backed bus (r ∷ rs) = (is_unpublished t r || on_bus (t.id r) bus) && all_backed bus rs

module _ {D R : Type 0} (t : Table D R) (law : IsTable t) where
  all_backed_more :
      (bus more : List Bytes) (rows : List R)
      → ((id : Bytes) → on_bus id bus ≡ true → on_bus id more ≡ true)
      → all_backed t bus rows ≡ true
      → all_backed t more rows ≡ true
  all_backed_more bus more [] grows h = refl
  all_backed_more bus more (r ∷ rs) grows h =
      ground (arith, h, grows (t.id r), all_backed_more bus more rs grows)

  all_backed-mark :
      (bus : List Bytes) (id : Bytes) (now : ℕ) (rows : List R)
      → on_bus id bus ≡ true
      → all_backed t bus rows ≡ true
      → all_backed t bus (mark t id now rows) ≡ true
  unfolding mark
  all_backed-mark bus id now [] p h = refl
  all_backed-mark bus id now (r ∷ rs) p h = ground (
    arith,
    p,
    h,
    bytes_eq_iff (t.id r) id,
    law.stamp_id now r,
    law.stamped now r,
    all_backed-mark bus id now rs p,
  )

  -- `m` never takes anything off the bus, and marks nothing that is not on it.
  record Backs {A : Type 0} (m : App D A) : Type 0 where
    grows :
        (w : World D) (id : Bytes)
        → on_bus id w.published ≡ true
        → on_bus id (m w).1.published ≡ true
    backs :
        (w : World D)
        → all_backed t w.published (t.rows w.db) ≡ true
        → all_backed t (m w).1.published (t.rows (m w).1.db) ≡ true

  Backs-pure : {A : Type 0} (a : A) → Backs (pure a)
  unfolding pure
  Backs-pure a = record { grows = λ w id h. h; backs = λ w h. h }

  Backs-get_now : Backs get_now
  unfolding get_now
  Backs-get_now = record { grows = λ w id h. h; backs = λ w h. h }

  Backs-get_db : Backs get_db
  unfolding get_db
  Backs-get_db = record { grows = λ w id h. h; backs = λ w h. h }

  attempt_keeps :
      (w : World D) → ((attempt w).1.published ≡ w.published) × ((attempt w).1.db ≡ w.db)
  unfolding attempt
  attempt_keeps w = ground arith

  Backs-attempt : Backs attempt
  Backs-attempt = record {
    grows = λ w id h. rw ((attempt_keeps w).0) h;
    backs = λ w h. rw ((attempt_keeps w).0, (attempt_keeps w).1) h;
  }

  Backs-continue :
      {A B : Type 0} (r : Result A) (f : A → App D B)
      → ((a : A) → Backs (f a))
      → Backs (continue r f)
  Backs-continue (ok a) f k = k a
  Backs-continue (err e) f k = record { grows = λ w id h. h; backs = λ w h. h }

  Backs-bind :
      {A B : Type 0} (m : App D A) (f : A → App D B)
      → Backs m
      → ((a : A) → Backs (f a))
      → Backs (m >>= f)
  Backs-bind m f km kf = record {
    grows = λ w id h. (Backs-continue (m w).0 f kf).grows (m w).1 id (km.grows w id h);
    backs = λ w h. (Backs-continue (m w).0 f kf).backs (m w).1 (km.backs w h);
  }

  -- The mark, which stands if the call before it succeeds.
  abbrev mark_row : Bytes → ℕ → App D (Unit {0})
  mark_row id now = do d ← get_db; put_db (t.with_rows (mark t id now (t.rows d)) d)

  marked_kept :
      (id : Bytes) (now : ℕ) (r : Result (Unit {0})) (v : World D)
      → on_bus id v.published ≡ true
      → all_backed t v.published (t.rows v.db) ≡ true
      → let u = (continue r (λ _. mark_row id now) v).1 in
        all_backed t u.published (t.rows u.db) ≡ true
  unfolding get_db put_db
  marked_kept id now (ok a) v p h =
      rw (law.read_back (mark t id now (t.rows v.db)) v.db)
        (all_backed-mark v.published id now (t.rows v.db) p h)
  marked_kept id now (err e) v p h = h

  marked_grows :
      (id : Bytes) (now : ℕ) (r : Result (Unit {0})) (v : World D)
      → (continue r (λ _. mark_row id now) v).1.published ≡ v.published
  unfolding get_db put_db
  marked_grows id now (ok a) v = refl
  marked_grows id now (err e) v = refl

  -- A message on the bus.
  abbrev sent : Bytes → World D → World D
  sent id w = record w { published = w.published ++ id ∷ [] }

  Backs-sent :
      (id : Bytes) (now : ℕ) (w : World D)
      → all_backed t w.published (t.rows w.db) ≡ true
      → let a = attempt (sent id w) in
        let u = (continue a.0 (λ _. mark_row id now) a.1).1 in
        all_backed t u.published (t.rows u.db) ≡ true
  Backs-sent id now w h =
      let (p, d) = attempt_keeps (sent id w) in
      marked_kept id now (attempt (sent id w)).0 (attempt (sent id w)).1
        (rw p (on_bus-sent id w.published))
        (rw (p, d)
          (all_backed_more w.published (w.published ++ id ∷ []) (t.rows w.db)
            (λ j. on_bus-append j id w.published) h))

  grows-sent :
      (id j : Bytes) (now : ℕ) (w : World D)
      → on_bus j w.published ≡ true
      → let a = attempt (sent id w) in
        on_bus j (continue a.0 (λ _. mark_row id now) a.1).1.published ≡ true
  grows-sent id j now w h =
      let a = attempt (sent id w) in
      ap (on_bus j) (marked_grows id now a.0 a.1 ∙ (attempt_keeps (sent id w)).0)
      ∙ on_bus-append j id w.published h

  Backs-relay_one : (r : R) → Backs (relay_one t r)
  unfolding relay_one get_now send
  Backs-relay_one r = Backs-bind attempt _ Backs-attempt λ _. record {
    grows = λ w id h. grows-sent (t.id r) id w.now w h;
    backs = λ w h. Backs-sent (t.id r) w.now w h;
  }

  Backs-relay_all : (rs : List R) → Backs (relay_all t rs)
  unfolding relay_all
  Backs-relay_all [] = Backs-pure tt
  Backs-relay_all (r ∷ rs) =
      Backs-bind (relay_one t r) _ (Backs-relay_one r) (λ _. Backs-relay_all rs)

  -- Whether COMMIT succeeds or the rows go back to what they were, nothing comes off the bus.
  committed_kept :
      {A : Type 0} (before : D) (a : A) (bus : List Bytes) (r : Result (Unit {0})) (v : World D)
      → all_backed t bus (t.rows before) ≡ true
      → ((id : Bytes) → on_bus id bus ≡ true → on_bus id v.published ≡ true)
      → all_backed t v.published (t.rows v.db) ≡ true
      → let u = (committed before a r v).1 in all_backed t u.published (t.rows u.db) ≡ true
  unfolding committed
  committed_kept before a bus (ok _) v old grows new = new
  committed_kept before a bus (err e) v old grows new =
      all_backed_more bus v.published (t.rows before) grows old

  settle_kept :
      {A : Type 0} (before : D) (bus : List Bytes) (r : Result A) (v : World D)
      → all_backed t bus (t.rows before) ≡ true
      → ((id : Bytes) → on_bus id bus ≡ true → on_bus id v.published ≡ true)
      → all_backed t v.published (t.rows v.db) ≡ true
      → let u = (settle before r v).1 in all_backed t u.published (t.rows u.db) ≡ true
  unfolding settle
  settle_kept before bus (err e) v old grows new =
      all_backed_more bus v.published (t.rows before) grows old
  settle_kept before bus (ok a) v old grows new =
      let (p, d) = attempt_keeps v in
      committed_kept before a bus (attempt v).0 (attempt v).1 old (λ id h. rw p (grows id h))
        (rw (p, d) new)

  open_tx_kept :
      {A : Type 0} (m : App D A) (r : Result (Unit {0})) (w : World D)
      → Backs m
      → all_backed t w.published (t.rows w.db) ≡ true
      → let u = (open_tx r m w).1 in all_backed t u.published (t.rows u.db) ≡ true
  unfolding open_tx
  open_tx_kept m (err e) w k h = h
  open_tx_kept m (ok _) w k h =
      let v = record w { in_tx = true } in
      settle_kept w.db w.published (m v).0 (m v).1 h (k.grows v) (k.backs v h)

  Backs-relay_transaction : Backs (attempt >> (get_db >>= λ d. relay_all t (claim t (t.rows d))))
  Backs-relay_transaction = Backs-bind attempt _ Backs-attempt λ _.
      Backs-bind get_db (λ d. relay_all t (claim t (t.rows d))) Backs-get_db
        (λ d. Backs-relay_all (claim t (t.rows d)))

  -- At-least-once delivery: if every row of the outbox that is marked as published is on the bus, then
  -- so it is after a run of the relay, whichever calls to the database and to the bus fail in it, the
  -- commit included. (No transaction is open when it starts.)
  pub relay_batch-all_backed :
      (w : World D)
      → w.in_tx ≡ false
      → all_backed t w.published (t.rows w.db) ≡ true
      → all_backed t (relay_batch t w).1.published (t.rows (relay_batch t w).1.db) ≡ true
  unfolding relay_batch
  relay_batch-all_backed w closed h =
      let m = attempt >> (get_db >>= λ d. relay_all t (claim t (t.rows d))) in
      let start : all_backed t (attempt w).1.published (t.rows (attempt w).1.db) ≡ true =
        rw ((attempt_keeps w).0, (attempt_keeps w).1) h in
      ap (λ r. all_backed t r.1.published (t.rows r.1.db)) (within_transaction-open_tx m w closed)
      ∙ open_tx_kept m (attempt w).0 (attempt w).1 Backs-relay_transaction start
