-- ===== src/Audit/Tests.antt =====
-- The consumer of the ledger at concrete inputs.
use lynk.Base.{◌≡◌, refl, Bytes, codes, true, false, List, [], ◌∷◌, none, some, Option}
use lynk.Effects.{World, get_now, draw, get_db, put_db}
use lynk.Effects.Redis.{Cell}
use lynk.Audit.{Message, Entry, Outside, nak, term, record_message}
use lynk.Audit.Ledger.{IsSettled, record_message-IsSettled}

abbrev outside : Outside
outside = record {
  unmarshal = λ s. elim s [
    | [] ↦ none
    | c ∷ _ ↦ some (record { event = codes "note.created"; occurred_at = some 3; traceparent = [] })
  ];
  uuid = λ now n. b'u' ∷ n ∷ [];
  scan_uuid = λ s. some s;
  jsonb = λ s. some s;
}

abbrev no_cell : Bytes → Option Cell
no_cell k = none

abbrev empty_ledger : World (List Entry)
empty_ledger = record {
  db = [];
  in_tx = false;
  redis = no_cell;
  now = 5;
  draws = 0;
  faults = [];
  published = [];
  mails = [];
}

abbrev message : Message
message = record { subject = codes "events.note.created"; body = codes "{}" }

stores :
    (record_message outside message empty_ledger).1.db
    ≡ record {
      id = b'u' ∷ 0 ∷ [];
      subject = codes "events.note.created";
      payload = codes "{}";
      occurred_at = 3;
      recorded_at = 5;
    }
      ∷ []
unfolding record_message get_now draw get_db put_db
stores = refl

sends_again : (record_message outside message (record empty_ledger { faults = true ∷ [] })).0 ≡ nak
unfolding record_message get_now draw
sends_again = refl

gives_up : (record_message outside (record message { body = [] }) empty_ledger).0 ≡ term
unfolding record_message
gives_up = refl

record_message-IsSettled_example :
    let r = record_message outside message empty_ledger in
    IsSettled outside message r.0 empty_ledger.db r.1.db
record_message-IsSettled_example = record_message-IsSettled outside message empty_ledger
