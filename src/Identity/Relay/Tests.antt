-- ===== src/Identity/Relay/Tests.antt =====
-- A run of the relay on two rows, of which one has been sent.
use lynk.Base.{List, ◌≡◌, refl, codes, [], ◌∷◌, none, some}
use lynk.Effects.{World, ok, calm}
use lynk.Outbox.{claim, relay_batch}
use lynk.Outbox.Progress.{IsRelayed, relay_batch-IsRelayed}
use lynk.Identity.Domain.{email_verified}
use lynk.Identity.Database.{OutboxRow, Db}
use lynk.Identity.Samples.{db, world}
use lynk.Identity.Relay.{outbox_table, outbox_table-IsTable}

abbrev verified_row : OutboxRow
verified_row = record {
  id = codes "e1";
  event = email_verified (codes "u1") 1;
  occurred_at = 1;
  published_at = some 2;
}

abbrev waiting_row : OutboxRow
waiting_row = record {
  id = codes "e2";
  event = email_verified (codes "u2") 3;
  occurred_at = 3;
  published_at = none;
}

abbrev half_sent : World Db
half_sent = record world {
  db = record db { outbox = verified_row ∷ waiting_row ∷ [] };
  published = codes "e1" ∷ [];
}

relay_batch-IsRelayed_example :
    (order : List OutboxRow) × ((relay_batch outbox_table (calm half_sent)).0 ≡ ok tt)
    × IsRelayed outbox_table half_sent (relay_batch outbox_table (calm half_sent)).1 order
relay_batch-IsRelayed_example =
    relay_batch-IsRelayed outbox_table outbox_table-IsTable half_sent refl

sends_the_second : claim outbox_table half_sent.db.outbox ≡ waiting_row ∷ []
unfolding claim
sends_the_second = refl
