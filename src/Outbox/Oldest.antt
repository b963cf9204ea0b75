-- ===== src/Outbox/Oldest.antt =====
-- ORDER BY occurred_at: the rows, oldest first, and nothing but them.
use mathlib.Core.List.{Permᴰ}
use mathlib.Core.List.Permᴰ
use lynk.Base.{◌≤◌, ◌≡◌, refl, arith, Bool, true, false, List, [], ◌∷◌, All, ltb, if◌then◌else◌}
use lynk.Outbox.{Table, insert_oldest, by_time}

module _ {D R : Type 0} (t : Table D R) where
  -- Oldest first.
  abbrev pub IsOldestFirst : List R → Type 0
  IsOldestFirst [] = Unit
  IsOldestFirst (r ∷ rs) = All (λ s. t.occurred_at r ≤ t.occurred_at s) rs × IsOldestFirst rs

  insert_oldest-Perm : (r : R) (rs : List R) → Permᴰ (insert_oldest t r rs) (r ∷ rs)
  unfolding insert_oldest
  insert_oldest-Perm r [] = Permᴰ.refl _
  insert_oldest-Perm r (s ∷ ss) =
      placed (ltb (t.occurred_at s) (t.occurred_at r))
        (Permᴰ.trans (Permᴰ.cons refl (insert_oldest-Perm r ss)) (Permᴰ.swap refl refl))
    where
      placed :
          (b : Bool)
          → Permᴰ (s ∷ insert_oldest t r ss) (r ∷ s ∷ ss)
          → Permᴰ (if b then s ∷ insert_oldest t r ss else r ∷ s ∷ ss) (r ∷ s ∷ ss)
      placed true p = p
      placed false p = Permᴰ.refl _

  pub by_time-Perm : (rs : List R) → Permᴰ (by_time t rs) rs
  unfolding by_time
  by_time-Perm [] = Permᴰ.nil
  by_time-Perm (r ∷ rs) =
      Permᴰ.trans (insert_oldest-Perm r (by_time t rs)) (Permᴰ.cons refl (by_time-Perm rs))

  -- A bound on the rows stays one when a row that keeps it comes in.
  insert_oldest-All :
      (P : R → Type 0) (r : R) (rs : List R) → P r → All P rs → All P (insert_oldest t r rs)
  unfolding insert_oldest
  insert_oldest-All P r [] p h = (p, tt)
  insert_oldest-All P r (s ∷ ss) p h =
      placed (ltb (t.occurred_at s) (t.occurred_at r)) (insert_oldest-All P r ss p h.1)
    where
      placed :
          (b : Bool)
          → All P (insert_oldest t r ss)
          → All P (if b then s ∷ insert_oldest t r ss else r ∷ s ∷ ss)
      placed true q = (h.0, q)
      placed false q = (p, h)

  older-All :
      (a b : R) (rs : List R)
      → t.occurred_at a ≤ t.occurred_at b
      → All (λ s. t.occurred_at b ≤ t.occurred_at s) rs
      → All (λ s. t.occurred_at a ≤ t.occurred_at s) rs
  older-All a b [] h k = tt
  older-All a b (s ∷ ss) h k = (omega (arith, h, k.0), older-All a b ss h k.1)

  insert_oldest-IsOldestFirst :
      (r : R) (rs : List R) → IsOldestFirst rs → IsOldestFirst (insert_oldest t r rs)
  unfolding insert_oldest
  insert_oldest-IsOldestFirst r [] h = (tt, tt)
  insert_oldest-IsOldestFirst r (s ∷ ss) h =
      placed (ltb (t.occurred_at s) (t.occurred_at r)) refl (insert_oldest-IsOldestFirst r ss h.1)
    where
      placed :
          (b : Bool)
          → ltb (t.occurred_at s) (t.occurred_at r) ≡ b
          → IsOldestFirst (insert_oldest t r ss)
          → IsOldestFirst (if b then s ∷ insert_oldest t r ss else r ∷ s ∷ ss)
      placed true e q = (
        insert_oldest-All (λ x. t.occurred_at s ≤ t.occurred_at x) r ss (ground (arith, e)) h.0,
        q,
      )
      placed false e q =
          let below : t.occurred_at r ≤ t.occurred_at s = ground (arith, e) in
          ((below, older-All r s ss below h.0), h)

  pub by_time-IsOldestFirst : (rs : List R) → IsOldestFirst (by_time t rs)
  unfolding by_time
  by_time-IsOldestFirst [] = tt
  by_time-IsOldestFirst (r ∷ rs) =
      insert_oldest-IsOldestFirst r (by_time t rs) (by_time-IsOldestFirst rs)
