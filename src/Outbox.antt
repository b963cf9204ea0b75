-- ===== src/Outbox.antt =====
-- The relay from an outbox to the bus, which the modules example (infrastructure/outbox_relay.go) and
-- identity (infrastructure/outbox.go) each have for their own table. The bus is the list of the ids
-- published: what is on it stays there whatever becomes of the transaction.
pub mod Delivery
pub mod Oldest
pub mod Progress
use lynk.Base.{
  ℕ, ◌≡◌, Bytes, Bool, true, false, List, [], ◌∷◌, ◌++◌, Option, none, some, filter, take,
  update_where, ltb, bytes_eq, if◌then◌else◌,
}
use lynk.Effects.{App, ok, pure, get_now, get_db, put_db, attempt, within_transaction, ◌>>=◌, ◌>>◌}

-- The columns of an outbox table with rows `R`, and where it stands in the database `D`.
pub record Table (D R : Type 0) : Type 0 where
  pub id : R → Bytes
  pub occurred_at : R → ℕ
  pub published_at : R → Option ℕ
  pub stamp : ℕ → R → R
  pub rows : D → List R
  pub with_rows : List R → D → D

-- What is written is what is read.
pub record IsTable {D R : Type 0} (t : Table D R) : Type 0 where
  pub read_back : (rs : List R) (d : D) → t.rows (t.with_rows rs d) ≡ rs
  pub stamp_id : (now : ℕ) (r : R) → t.id (t.stamp now r) ≡ t.id r
  pub stamped : (now : ℕ) (r : R) → t.published_at (t.stamp now r) ≡ some now

abbrev pub relay_batch_size : ℕ
relay_batch_size = 100

abbrev pub is_none : Option ℕ → Bool
is_none none = true
is_none (some t) = false

module _ {D R : Type 0} (t : Table D R) where
  abbrev pub is_unpublished : R → Bool
  is_unpublished r = is_none (t.published_at r)

  -- ORDER BY occurred_at
  unfoldable pub insert_oldest : R → List R → List R
  insert_oldest r [] = r ∷ []
  insert_oldest r (s ∷ ss) =
      if ltb (t.occurred_at s) (t.occurred_at r) then s ∷ insert_oldest r ss else r ∷ s ∷ ss

  unfoldable pub by_time : List R → List R
  unfolding insert_oldest
  by_time [] = []
  by_time (r ∷ rs) = insert_oldest r (by_time rs)

  -- ClaimUnpublishedOutboxEvents; the rows are locked until the transaction ends, and those that
  -- another relay has locked are not in the table seen here.
  unfoldable pub claim : List R → List R
  unfolding by_time
  claim rs = take relay_batch_size (by_time (filter is_unpublished rs))

  -- MarkOutboxEventPublished
  unfoldable pub mark : Bytes → ℕ → List R → List R
  mark id now = update_where (λ r. bytes_eq (t.id r) id) (t.stamp now)

  unfoldable pub send : Bytes → App D (Unit {0})
  send id w = (ok tt, record w { published = w.published ++ id ∷ [] })

  unfoldable pub relay_one : R → App D (Unit {0})
  unfolding send mark
  relay_one r = do
    attempt
    send (t.id r)
    now ← get_now
    attempt
    d ← get_db
    put_db (t.with_rows (mark (t.id r) now (t.rows d)) d)

  unfoldable pub relay_all : List R → App D (Unit {0})
  unfolding relay_one
  relay_all [] = pure tt
  relay_all (r ∷ rs) = do relay_one r; relay_all rs

  unfoldable pub relay_batch : App D (Unit {0})
  unfolding claim relay_all
  relay_batch = within_transaction (do attempt; d ← get_db; relay_all (claim (t.rows d)))
