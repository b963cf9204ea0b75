-- ===== src/Notes/Database.antt =====
-- The aggregate, its value objects and its table (modules/example/domain, note_repository.go).
-- A version is an `int64` that is not driven past its range. Ids are in the canonical text form.
use lynk.Base.{
  ℕ, ◌+◌, Bytes, Bool, true, false, not, ◌&&◌, ◌||◌, List, [], ◌∷◌, ◌++◌, Option, none, some, any,
  find?, take, drop, update_where, ltb, length, ◌==◌, get_elem?, bytes_eq, trim_space, rune_count,
  if◌then◌else◌,
}
use lynk.Effects.{
  App, Result, ok, err, Error, infrastructure, corrupt_note_id, corrupt_note_title, note_not_found,
  invalid_note_id, invalid_title, missing_owner, concurrent_update, pure, raise, get_db, put_db,
  attempt, ◌>>=◌, ◌>>◌,
}

abbrev dash_at : Bytes → ℕ → Bool
dash_at raw i = elim (get_elem? raw i) [ none ↦ false | some c ↦ c == b'-' ]

-- vo.NewNoteID
unfoldable pub new_note_id : Bytes → Result Bytes
new_note_id raw =
    if not (length raw == 36)
      || not (dash_at raw 8)
      || not (dash_at raw 13)
      || not (dash_at raw 18)
      || not (dash_at raw 23)
    then err invalid_note_id
    else ok raw

abbrev pub is_blank : Bytes → Bool
is_blank [] = true
is_blank (c ∷ s) = false

abbrev pub max_title_len : ℕ
max_title_len = 200

-- vo.NewTitle
unfoldable pub new_title : Bytes → Result Bytes
unfolding trim_space rune_count
new_title raw =
    let trimmed = trim_space raw in
    if is_blank trimmed || ltb max_title_len (rune_count trimmed)
    then err invalid_title
    else ok trimmed

pub data Event : Type 0 where
  note_created : (note_id owner_id title body : Bytes) → ℕ → Event
  note_updated : (note_id title body : Bytes) → (version at : ℕ) → Event

pub record Note : Type 0 where
  pub id : Bytes
  pub owner_id : Bytes
  pub title : Bytes
  pub body : Bytes
  pub version : ℕ
  pub created_at : ℕ
  pub updated_at : ℕ
  pub events : List Event

unfoldable pub new_note : (id owner_id title body : Bytes) → ℕ → Result Note
new_note id owner_id title body now =
    if is_blank owner_id
    then err missing_owner
    else ok (record {
      id = id;
      owner_id = owner_id;
      title = title;
      body = body;
      version = 1;
      created_at = now;
      updated_at = now;
      events = note_created id owner_id title body now ∷ [];
    })

unfoldable pub update : (title body : Bytes) → ℕ → Note → Note
update title body now n = record n {
  title = title;
  body = body;
  updated_at = now;
  events = n.events ++ note_updated n.id title body (n.version + 1) now ∷ [];
}

unfoldable pub bump_version : Note → Note
bump_version n = record n { version = n.version + 1 }

pub record Row : Type 0 where
  pub id : Bytes
  pub owner_id : Bytes
  pub title : Bytes
  pub body : Bytes
  pub version : ℕ
  pub created_at : ℕ
  pub updated_at : ℕ

pub record OutboxRow : Type 0 where
  pub id : Bytes
  pub event : Event
  pub occurred_at : ℕ
  pub published_at : Option ℕ

pub record Db : Type 0 where
  pub notes : List Row
  pub outbox : List OutboxRow

abbrev pub Action : Type 0 → Type 0
Action = App Db

abbrev pub row_of : Note → Row
row_of n = record {
  id = n.id;
  owner_id = n.owner_id;
  title = n.title;
  body = n.body;
  version = n.version;
  created_at = n.created_at;
  updated_at = n.updated_at;
}

-- GetNote: reads are scoped to the owner.
abbrev pub is_note : Bytes → Bytes → Row → Bool
is_note id owner_id r = bytes_eq r.id id && bytes_eq r.owner_id owner_id

-- UpdateNote: guarded by the version.
abbrev pub is_version : Note → Row → Bool
is_version n r = is_note n.id n.owner_id r && r.version == n.version

abbrev pub written : Note → Row → Row
written n r = record r {
  title = n.title;
  body = n.body;
  version = r.version + 1;
  updated_at = n.updated_at;
}

-- ORDER BY created_at DESC
unfoldable pub insert_newest : Row → List Row → List Row
insert_newest r [] = r ∷ []
insert_newest r (s ∷ ss) =
    if ltb r.created_at s.created_at then s ∷ insert_newest r ss else r ∷ s ∷ ss

unfoldable pub notes_of : Bytes → List Row → List Row
unfolding insert_newest
notes_of owner_id [] = []
notes_of owner_id (r ∷ rs) =
    let rest = notes_of owner_id rs in
    if bytes_eq r.owner_id owner_id then insert_newest r rest else rest

abbrev pub or_fail : Option Bytes → Action Bytes
or_fail none = raise infrastructure
or_fail (some id) = pure id

module _ (scan_uuid : Bytes → Option Bytes) where
  -- uuidFromString
  abbrev pub uuid_from : Bytes → Action Bytes
  uuid_from raw = or_fail (scan_uuid raw)

  -- A wrapped error keeps nothing of its cause here.
  abbrev pub or_corrupt : Error → Result Bytes → Action Bytes
  or_corrupt corrupt (ok a) = pure a
  or_corrupt corrupt (err e) = raise corrupt

  unfoldable pub note_from_row : Row → Action Note
  unfolding new_note_id new_title
  note_from_row r = do
    id ← or_corrupt corrupt_note_id (new_note_id r.id)
    title ← or_corrupt corrupt_note_title (new_title r.title)
    pure (record {
      id = id;
      owner_id = r.owner_id;
      title = title;
      body = r.body;
      version = r.version;
      created_at = r.created_at;
      updated_at = r.updated_at;
      events = [];
    })

  unfoldable pub create : Note → Action (Unit {0})
  create n = do
    id ← uuid_from n.id
    attempt
    d ← get_db
    if any (λ r. bytes_eq r.id id) d.notes
        then raise infrastructure
        else put_db (record d { notes = d.notes ++ row_of (record n { id = id }) ∷ [] })

  unfoldable pub from_found : Option Row → Action Note
  unfolding note_from_row
  from_found none = raise note_not_found
  from_found (some r) = note_from_row r

  unfoldable pub get : Bytes → Bytes → Action Note
  unfolding from_found
  get owner_id raw = do
    id ← uuid_from raw
    attempt
    d ← get_db
    from_found (find? (is_note id owner_id) d.notes)

  -- The guarded UPDATE, and the note with the version that the row now has.
  unfoldable pub save : Note → Action Note
  unfolding bump_version
  save n = do
    id ← uuid_from n.id
    attempt
    d ← get_db
    let m = record n { id = id }
    if any (is_version m) d.notes
        then (do
          put_db (record d { notes = update_where (is_version m) (written m) d.notes })
          pure (bump_version n))
        else raise concurrent_update

  unfoldable pub from_rows : List Row → Action (List Note)
  unfolding note_from_row
  from_rows [] = pure []
  from_rows (r ∷ rs) = do n ← note_from_row r; ns ← from_rows rs; pure (n ∷ ns)

  unfoldable pub list : Bytes → ℕ → ℕ → Action (List Note)
  unfolding notes_of from_rows
  list owner_id limit offset = do
    attempt
    d ← get_db
    from_rows (take limit (drop offset (notes_of owner_id d.notes)))
