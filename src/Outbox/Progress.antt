-- ===== src/Outbox/Progress.antt =====
-- What a run of the relay does when nothing fails.
use mathlib.Core.List.{Permᴰ}
use lynk.Base.{
  take, filter, ℕ, ◌≡◌, refl, sym, ap, subst, ◌∙◌, Bytes, Bool, true, false, ◌&&◌, List, [], ◌∷◌,
  ◌++◌, arith, any, map, All, bytes_eq, append_assoc, append-nil,
}
use lynk.Effects.{
  World, ok, calm, pure, get_now, get_db, put_db, attempt, committed, settle, open_tx, ◌>>=◌, ◌>>◌,
}
use lynk.Effects.Rules.{within_transaction-open_tx}
use lynk.Outbox.Oldest.{IsOldestFirst, by_time-Perm, by_time-IsOldestFirst}
use lynk.Outbox.{
  by_time, Table, IsTable, is_unpublished, claim, mark, send, relay_one, relay_all, relay_batch,
}

module _ {D R : Type 0} (t : Table D R) where
  -- A row with this id has not been published.
  abbrev pub is_waiting : Bytes → List R → Bool
  is_waiting id rs = any (λ r. is_unpublished t r && bytes_eq (t.id r) id) rs

  -- What a run has done, for one order of the rows that were unpublished: oldest first, the first
  -- hundred are on the bus, after what was there, and none of them is unpublished any more.
  pub record IsRelayed (w v : World D) (order : List R) : Type 0 where
    pub complete : Permᴰ order (filter (is_unpublished t) (t.rows w.db))
    pub oldest_first : IsOldestFirst t order
    pub sent : v.published ≡ w.published ++ map t.id (take 100 order)
    pub marked : All (λ x. is_waiting (t.id x) (t.rows v.db) ≡ false) (take 100 order)

module _ {D R : Type 0} (t : Table D R) (law : IsTable t) where
  abbrev relayed : R → World D → World D
  relayed r w = record w {
    published = w.published ++ t.id r ∷ [];
    db = t.with_rows (mark t (t.id r) w.now (t.rows w.db)) w.db;
  }

  all_relayed : List R → World D → World D
  all_relayed [] w = w
  all_relayed (r ∷ rs) w = all_relayed rs (relayed r w)

  relay_one-relayed : (r : R) (w : World D) → relay_one t r (calm w) ≡ (ok tt, calm (relayed r w))
  unfolding relay_one attempt send get_now get_db put_db
  relay_one-relayed r w = refl

  relay_all-relayed :
      (rs : List R) (w : World D) → relay_all t rs (calm w) ≡ (ok tt, calm (all_relayed rs w))
  unfolding relay_all all_relayed pure
  relay_all-relayed [] w = refl
  relay_all-relayed (r ∷ rs) w = rw (relay_one-relayed r w) (relay_all-relayed rs (relayed r w))

  published_all :
      (rs : List R) (w : World D) → (all_relayed rs w).published ≡ w.published ++ map t.id rs
  unfolding all_relayed
  published_all [] w = sym (append-nil w.published)
  published_all (r ∷ rs) w =
      published_all rs (relayed r w) ∙ append_assoc w.published (t.id r ∷ []) (map t.id rs)

  -- A mark takes its own id off the waiting ones, and adds none.
  waiting-mark :
      (id other : Bytes) (now : ℕ) (rs : List R)
      → is_waiting t id rs ≡ false
      → is_waiting t id (mark t other now rs) ≡ false
  unfolding mark
  waiting-mark id other now [] h = refl
  waiting-mark id other now (r ∷ rs) h =
      ground (arith, h, law.stamped now r, waiting-mark id other now rs)

  waiting-own : (id : Bytes) (now : ℕ) (rs : List R) → is_waiting t id (mark t id now rs) ≡ false
  unfolding mark
  waiting-own id now [] = refl
  waiting-own id now (r ∷ rs) = ground (arith, law.stamped now r, waiting-own id now rs)

  waiting_after :
      (id : Bytes) (rs : List R) (w : World D)
      → is_waiting t id (t.rows w.db) ≡ false
      → is_waiting t id (t.rows (all_relayed rs w).db) ≡ false
  unfolding all_relayed
  waiting_after id [] w h = h
  waiting_after id (r ∷ rs) w h = waiting_after id rs (relayed r w) (
      rw (law.read_back (mark t (t.id r) w.now (t.rows w.db)) w.db)
        (waiting-mark id (t.id r) w.now (t.rows w.db) h))

  none_waiting :
      (rs : List R) (w : World D)
      → All (λ r. is_waiting t (t.id r) (t.rows (all_relayed rs w).db) ≡ false) rs
  unfolding all_relayed
  none_waiting [] w = tt
  none_waiting (r ∷ rs) w = (
    waiting_after (t.id r) rs (relayed r w) (
        rw (law.read_back (mark t (t.id r) w.now (t.rows w.db)) w.db)
          (waiting-own (t.id r) w.now (t.rows w.db))),
    none_waiting rs (relayed r w),
  )

  relay_batch-relayed :
      (w : World D)
      → w.in_tx ≡ false
      → relay_batch t (calm w) ≡ (
        ok tt,
        record (calm (all_relayed (claim t (t.rows w.db)) (record w { in_tx = true }))) {
          in_tx = false;
        },
      )
  unfolding relay_batch open_tx settle committed attempt get_db
  relay_batch-relayed w closed =
      within_transaction-open_tx (attempt >> (get_db >>= λ d. relay_all t (claim t (t.rows d))))
        (calm w) closed
      ∙ rw (relay_all-relayed (claim t (t.rows w.db)) (record w { in_tx = true })) refl

  -- A run in which no call fails sends, of all rows that are unpublished, the hundred oldest (all of
  -- them if they are fewer), oldest first and after what was on the bus, and leaves none of these
  -- unpublished. (No transaction is open when it starts.)
  pub relay_batch-IsRelayed :
      (w : World D)
      → w.in_tx ≡ false
      → (order : List R) × ((relay_batch t (calm w)).0 ≡ ok tt)
        × IsRelayed t w (relay_batch t (calm w)).1 order
  unfolding claim
  relay_batch-IsRelayed w closed =
      let order = by_time t (filter (is_unpublished t) (t.rows w.db)) in
      let v = record w { in_tx = true } in
      let run = relay_batch-relayed w closed in
      (
        order,
        ap (λ r. r.0) run,
        record {
          complete = by_time-Perm t (filter (is_unpublished t) (t.rows w.db));
          oldest_first = by_time-IsOldestFirst t (filter (is_unpublished t) (t.rows w.db));
          sent = ap (λ r. r.1.published) run ∙ published_all (take 100 order) v;
          marked =
              subst (λ r. All (λ x. is_waiting t (t.id x) (t.rows r.1.db) ≡ false) (take 100 order))
                (sym run) (none_waiting (take 100 order) v);
        },
      )
