-- ===== src/Notes/Relay.antt =====
-- The relay of the notes (modules/example/infrastructure/outbox_relay.go) on the table example.outbox.
use lynk.Base.{refl, some}
use lynk.Outbox
use lynk.Outbox.{Table, IsTable}
use lynk.Notes.Database.{OutboxRow, Db, Action}

abbrev pub outbox_table : Table Db OutboxRow
outbox_table = record {
  id = λ r. r.id;
  occurred_at = λ r. r.occurred_at;
  published_at = λ r. r.published_at;
  stamp = λ now r. record r { published_at = some now };
  rows = λ d. d.outbox;
  with_rows = λ rs d. record d { outbox = rs };
}

pub outbox_table-IsTable : IsTable outbox_table
outbox_table-IsTable = record {
  read_back = λ rs d. refl;
  stamp_id = λ now r. refl;
  stamped = λ now r. refl;
}

unfoldable pub relay_batch : Action (Unit {0})
unfolding Outbox.relay_batch
relay_batch = Outbox.relay_batch outbox_table
