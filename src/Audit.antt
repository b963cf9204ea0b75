-- ===== src/Audit.antt =====
-- The ledger of all events (services/core/internal/modules/audit/consumer.go) on the statement of
-- services/core/sqlc/queries/audit.sql. The settlement that the consumer sends for a message is the
-- value of `record_message`; that it may be lost on the way is not modelled.
pub mod Ledger
pub mod Handler
mod Tests
use lynk.Base.{
  ℕ, Bytes, Bool, List, [], ◌∷◌, ◌++◌, Option, none, some, any, bytes_eq, if◌then◌else◌,
}
use lynk.Effects.{
  World, App, Result, ok, err, Error, infrastructure, pure, raise, get_now, get_db, put_db, attempt,
  draw, ◌>>=◌, ◌>>◌,
}

-- `occurred_at` is `none` for the zero time.
pub record Envelope : Type 0 where
  pub event : Bytes
  pub occurred_at : Option ℕ
  pub traceparent : Bytes

pub record Message : Type 0 where
  pub subject : Bytes
  pub body : Bytes

pub record Entry : Type 0 where
  pub id : Bytes
  pub subject : Bytes
  pub payload : Bytes
  pub occurred_at : ℕ
  pub recorded_at : ℕ

-- What JetStream is told of a message: done, send again, or give up.
pub data Settlement : Type 0 where
  ack nak term : Settlement

-- encoding/json, the UUID source, pgtype and the column type JSONB, which may refuse what
-- encoding/json accepts.
pub record Outside : Type 0 where
  pub unmarshal : Bytes → Option Envelope
  pub uuid : ℕ → ℕ → Bytes
  pub scan_uuid : Bytes → Option Bytes
  pub jsonb : Bytes → Option Bytes

-- InsertAuditEntry; `id` is the primary key.
unfoldable pub insert_audit_entry : Entry → App (List Entry) (Unit {0})
insert_audit_entry e = do
  rows ← get_db
  if any (λ r. bytes_eq r.id e.id) rows then raise infrastructure else put_db (rows ++ e ∷ [])

abbrev pub or_now : ℕ → Option ℕ → ℕ
or_now now none = now
or_now now (some t) = t

module _ (o : Outside) where
  unfoldable pub insert_payload :
      Message → Envelope → ℕ → Bytes → Option Bytes → App (List Entry) (Unit {0})
  unfolding insert_audit_entry
  insert_payload message env now id none = raise infrastructure
  insert_payload message env now id (some payload) = insert_audit_entry (record {
    id = id;
    subject = message.subject;
    payload = payload;
    occurred_at = or_now now env.occurred_at;
    recorded_at = now;
  })

  unfoldable pub insert_under : Message → Envelope → ℕ → Option Bytes → App (List Entry) (Unit {0})
  unfolding insert_payload
  insert_under message env now none = raise infrastructure
  insert_under message env now (some id) = do
    attempt
    insert_payload message env now id (o.jsonb message.body)

  unfoldable pub write_entry : Message → Envelope → App (List Entry) (Unit {0})
  unfolding insert_under
  write_entry message env = do
    now ← get_now
    n ← draw
    insert_under message env now (o.scan_uuid (o.uuid now n))

  unfoldable pub settle : Result (Unit {0}) × World (List Entry) → Settlement × World (List Entry)
  settle (ok _, w) = (ack, w)
  settle (err e, w) = (nak, w)

  unfoldable pub record_parsed :
      Message → Option Envelope → World (List Entry) → Settlement × World (List Entry)
  unfolding write_entry settle
  record_parsed message none w = (term, w)
  record_parsed message (some env) w = settle (write_entry message env w)

  unfoldable pub record_message : Message → World (List Entry) → Settlement × World (List Entry)
  unfolding record_parsed
  record_message message = record_parsed message (o.unmarshal message.body)
