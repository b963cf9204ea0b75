-- ===== src/Notes/UseCases.antt =====
-- The use cases (modules/example/application) and the outbox publisher.
use lynk.Base.{
  ℕ, Bytes, not, ◌||◌, List, [], ◌∷◌, ◌++◌, Option, none, ltb, ◌==◌, ℤ, pos, negsuc, if◌then◌else◌,
}
use lynk.Effects.{
  concurrent_update, pure, raise, lift, get_now, get_db, put_db, attempt, draw, within_transaction,
  ◌>>=◌, ◌>>◌,
}
use lynk.Notes.Database.{
  Note, Event, Action, new_note_id, new_title, new_note, update, create, get, save, list, uuid_from,
}

-- What the module takes from outside: pgtype.UUID's Scan, and the UUIDv7 of a draw.
pub record Outside : Type 0 where
  pub scan_uuid : Bytes → Option Bytes
  pub uuid : ℕ → ℕ → Bytes

-- `if limit <= 0 || limit > 100 { limit = 20 }`
abbrev pub page_limit : ℤ → ℕ
page_limit (negsuc n) = 20
page_limit (pos n) = if n == 0 || ltb 100 n then 20 else n

abbrev pub page_offset : ℤ → ℕ
page_offset (negsuc n) = 0
page_offset (pos n) = n

module _ (o : Outside) where
  abbrev pub new_id : Action Bytes
  new_id = do now ← get_now; n ← draw; pure (o.uuid now n)

  unfoldable pub publish : List Event → Action (Unit {0})
  publish [] = pure tt
  publish (e ∷ es) = do
    raw ← new_id
    id ← uuid_from o.scan_uuid raw
    now ← get_now
    attempt
    d ← get_db
    put_db (record d {
      outbox =
          d.outbox ++ record { id = id; event = e; occurred_at = now; published_at = none } ∷ [];
    })
    publish es

  abbrev pub pulled : Note → Note
  pulled n = record n { events = [] }

  unfoldable pub create_note : Bytes → Bytes → Bytes → Action Note
  unfolding publish
  create_note owner_id title body = do
    raw_id ← new_id
    note_id ← lift (new_note_id raw_id)
    note_title ← lift (new_title title)
    now ← get_now
    note ← lift (new_note note_id owner_id note_title body now)
    within_transaction (do create o.scan_uuid note; publish note.events)
    pure (pulled note)

  unfoldable pub get_note : Bytes → Bytes → Action Note
  get_note owner_id id = do note_id ← lift (new_note_id id); get o.scan_uuid owner_id note_id

  unfoldable pub list_notes : Bytes → ℤ → ℤ → Action (List Note)
  list_notes owner_id limit offset =
      list o.scan_uuid owner_id (page_limit limit) (page_offset offset)

  -- The transaction of `UpdateNote`, on the note as it was read.
  unfoldable pub rewrite : Bytes → Bytes → ℕ → Note → Action Note
  unfolding publish
  rewrite title body version note =
      if not (note.version == version) then raise concurrent_update else (do
        now ← get_now
        saved ← save o.scan_uuid (update title body now note)
        publish saved.events
        pure (pulled saved))

  unfoldable pub update_note : (owner_id id title body : Bytes) → ℕ → Action Note
  unfolding rewrite
  update_note owner_id id title body version = do
    note_id ← lift (new_note_id id)
    note_title ← lift (new_title title)
    within_transaction
        (do note ← get o.scan_uuid owner_id note_id; rewrite note_title body version note)
