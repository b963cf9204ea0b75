-- ===== src/Notes/Tests.antt =====
-- The theorems on notes and their outbox at concrete inputs.
use lynk.Base.{
  ℕ, ◌+◌, ◌≡◌, refl, Bytes, codes, true, false, [], ◌∷◌, ◌++◌, Option, none, some, bytes_eq,
  trim_space, rune_count,
}
use lynk.Effects.{World, ok, err, calm, concurrent_update}
use lynk.Effects.Redis.{Cell}
use lynk.Notes.Database.{Row, OutboxRow, Db, note_created, new_note_id, new_title}
use lynk.Notes.UseCases.{Outside, update_note}
use lynk.Notes.Relay.{relay_batch, outbox_table}
use lynk.Notes.Versions.{IsCurrent, update_note_once}
use lynk.Outbox.Delivery.{all_backed}
use lynk.Notes.Delivery.{relay_batch-all_backed}

abbrev id_of : ℕ → Bytes
id_of n = codes "00000000-0000-7000-8000-00000000000" ++ (b'0' + n) ∷ []

abbrev sample : Outside
sample = record { scan_uuid = λ s. some s; uuid = λ now n. id_of n }

abbrev row : Row
row = record {
  id = id_of 7;
  owner_id = codes "u1";
  title = codes "First";
  body = codes "text";
  version = 3;
  created_at = 1;
  updated_at = 2;
}

abbrev pending : OutboxRow
pending = record {
  id = id_of 1;
  event = note_created (id_of 7) (codes "u1") (codes "First") (codes "text") 1;
  occurred_at = 1;
  published_at = none;
}

abbrev no_cell : Bytes → Option Cell
no_cell k = none

abbrev world : World Db
world = record {
  db = record { notes = row ∷ []; outbox = pending ∷ [] };
  in_tx = false;
  redis = no_cell;
  now = 50;
  draws = 2;
  faults = [];
  published = [];
  mails = [];
}

current : IsCurrent sample world (codes "u1") (id_of 7) (codes "Second") 3 row
unfolding bytes_eq new_note_id new_title trim_space rune_count
current = record {
  found = refl;
  current = refl;
  id_shape = refl;
  id_scans = refl;
  row_title = refl;
  title_shape = refl;
  event_scans = refl;
}

third_title : new_title (codes "Third") ≡ ok (codes "Third")
unfolding new_title trim_space rune_count
third_title = refl

update_note_once_example :
    let v =
      record (calm
        (update_note sample (codes "u1") (id_of 7) (codes "Second") (codes "b") 3 (calm world)).1) {
          now = 60;
        } in
    update_note sample (codes "u1") (id_of 7) (codes "Third") (codes "c") 3 v
    ≡ (err concurrent_update, v)
update_note_once_example =
    update_note_once sample world (codes "u1") (id_of 7) (codes "Second") (codes "b")
      (codes "Third") (codes "c") 3 60 row refl current third_title

-- The bus takes the message and the mark fails.
abbrev half_way : World Db
half_way = record world { faults = false ∷ false ∷ false ∷ true ∷ [] }

relay_batch-all_backed_example :
    all_backed outbox_table (relay_batch half_way).1.published (relay_batch half_way).1.db.outbox
    ≡ true
relay_batch-all_backed_example = relay_batch-all_backed half_way refl refl
