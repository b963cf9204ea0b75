-- ===== src/Identity/Relay.antt =====
-- The relay of identity (modules/identity/infrastructure/outbox.go) on the table identity.outbox.
mod Tests
use lynk.Base.{◌≡◌, refl, true, false, some}
use lynk.Outbox
use lynk.Outbox.Delivery
use lynk.Outbox.Delivery.{all_backed}
use lynk.Outbox.{Table, IsTable}
use lynk.Effects.{World, App}
use lynk.Identity.Database.{OutboxRow, Db}

abbrev pub outbox_table : Table Db OutboxRow
outbox_table = record {
  id = λ r. r.id;
  occurred_at = λ r. r.occurred_at;
  published_at = λ r. r.published_at;
  stamp = λ now r. record r { published_at = some now };
  rows = λ d. d.outbox;
  with_rows = λ rs d. record d { outbox = rs };
}

pub outbox_table-IsTable : IsTable outbox_table
outbox_table-IsTable = record {
  read_back = λ rs d. refl;
  stamp_id = λ now r. refl;
  stamped = λ now r. refl;
}

unfoldable pub relay_batch : App Db (Unit {0})
unfolding Outbox.relay_batch
relay_batch = Outbox.relay_batch outbox_table

-- The same holds of identity's events as of those of notes.
identity_all_backed :
    (w : World Db)
    → w.in_tx ≡ false
    → all_backed outbox_table w.published w.db.outbox ≡ true
    → all_backed outbox_table (relay_batch w).1.published (relay_batch w).1.db.outbox ≡ true
unfolding relay_batch
identity_all_backed = Delivery.relay_batch-all_backed outbox_table outbox_table-IsTable
