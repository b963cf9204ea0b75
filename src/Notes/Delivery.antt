-- ===== src/Notes/Delivery.antt =====
-- At-least-once delivery of the events of notes.
use lynk.Base.{◌≡◌, true, false}
use lynk.Effects.{World}
use lynk.Outbox.Delivery
use lynk.Outbox.Delivery.{all_backed}
use lynk.Notes.Database.{Db}
use lynk.Notes.Relay.{outbox_table, outbox_table-IsTable, relay_batch}

-- At-least-once delivery: if every row of the outbox that is marked as published is on the bus, then
-- so it is after a run of the relay, whichever calls to the database and to the bus fail in it, the
-- commit included. (No transaction is open when it starts.)
pub relay_batch-all_backed :
    (w : World Db)
    → w.in_tx ≡ false
    → all_backed outbox_table w.published w.db.outbox ≡ true
    → all_backed outbox_table (relay_batch w).1.published (relay_batch w).1.db.outbox ≡ true
unfolding relay_batch
relay_batch-all_backed = Delivery.relay_batch-all_backed outbox_table outbox_table-IsTable
