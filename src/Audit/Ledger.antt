-- ===== src/Audit/Ledger.antt =====
-- What the ledger holds after a message (services/core/internal/modules/audit/consumer.go).
use lynk.Base.{
  ℕ, ◌+◌, ◌≡◌, refl, Bytes, Bool, true, false, List, [], ◌∷◌, ◌++◌, Option, none, some, any,
  bytes_eq,
}
use lynk.Effects.{
  World, calm, App, Result, raise, get_now, get_db, put_db, attempt, draw, ◌>>=◌, ◌>>◌,
}
use lynk.Audit.{
  Envelope, Message, Entry, Settlement, ack, nak, term, Outside, insert_audit_entry, insert_payload,
  insert_under, write_entry, settle, record_parsed, record_message,
}

module _ (o : Outside) (message : Message) where
  -- The three ends of a delivery, by what is sent and what the ledger holds before and after.
  pub data IsSettled (settlement : Settlement) (before after : List Entry) : Type 0 where
    stored :
        (env : Envelope) (e : Entry)
        → settlement ≡ ack
        → after ≡ before ++ e ∷ []
        → o.unmarshal message.body ≡ some env
        → e.subject ≡ message.subject
        → o.jsonb message.body ≡ some e.payload
        → IsSettled settlement before after
    retried :
        (env : Envelope)
        → settlement ≡ nak
        → after ≡ before
        → o.unmarshal message.body ≡ some env
        → IsSettled settlement before after
    dropped :
        settlement ≡ term
        → after ≡ before
        → o.unmarshal message.body ≡ none
        → IsSettled settlement before after

  -- What an attempt to write leaves behind.
  abbrev Closes : Envelope → List Entry → Result (Unit {0}) × World (List Entry) → Type 0
  Closes env before r = IsSettled (settle o r).0 before (settle o r).1.db

  -- One call that may fail, before an action that ends well from wherever the call leaves the world.
  attempt_ends :
      (env : Envelope) (m : App (List Entry) (Unit {0})) (w : World (List Entry)) (fs : List Bool)
      → w.faults ≡ fs
      → o.unmarshal message.body ≡ some env
      → ((v : World (List Entry)) → Closes env v.db (m v))
      → Closes env w.db ((attempt >> m) w)
  unfolding attempt settle
  attempt_ends env m w [] h parsed rest = rw h (rest (calm w))
  attempt_ends env m w (true ∷ fs) h parsed rest = rw h (retried env refl refl parsed)
  attempt_ends env m w (false ∷ fs) h parsed rest = rw h (rest (record w { faults = fs }))

  draw_ends :
      (env : Envelope) (m : ℕ → App (List Entry) (Unit {0})) (w : World (List Entry))
      (fs : List Bool)
      → w.faults ≡ fs
      → o.unmarshal message.body ≡ some env
      → ((n : ℕ) (v : World (List Entry)) → Closes env v.db (m n v))
      → Closes env w.db ((draw >>= m) w)
  unfolding attempt draw settle
  draw_ends env m w [] h parsed rest = rw h (rest w.draws (record (calm w) { draws = w.draws + 1 }))
  draw_ends env m w (true ∷ fs) h parsed rest = rw h (retried env refl refl parsed)
  draw_ends env m w (false ∷ fs) h parsed rest =
      rw h (rest w.draws (record w { faults = fs; draws = w.draws + 1 }))

  insert_ends :
      (env : Envelope) (e : Entry) (w : World (List Entry)) (taken : Bool)
      → any (λ r. bytes_eq r.id e.id) w.db ≡ taken
      → o.unmarshal message.body ≡ some env
      → e.subject ≡ message.subject
      → o.jsonb message.body ≡ some e.payload
      → Closes env w.db (insert_audit_entry e w)
  unfolding insert_audit_entry settle get_db put_db raise
  insert_ends env e w true h parsed same j = rw h (retried env refl refl parsed)
  insert_ends env e w false h parsed same j = rw h (stored env e refl refl parsed same j)

  payload_ends :
      (env : Envelope) (now : ℕ) (id : Bytes) (payload : Option Bytes) (w : World (List Entry))
      → o.unmarshal message.body ≡ some env
      → o.jsonb message.body ≡ payload
      → Closes env w.db (insert_payload o message env now id payload w)
  unfolding insert_payload settle raise
  payload_ends env now id none w parsed j = retried env refl refl parsed
  payload_ends env now id (some payload) w parsed j = insert_ends env _ w _ refl parsed refl j

  under_ends :
      (env : Envelope) (now : ℕ) (id : Option Bytes) (w : World (List Entry))
      → o.unmarshal message.body ≡ some env
      → Closes env w.db (insert_under o message env now id w)
  unfolding insert_under settle raise
  under_ends env now none w parsed = retried env refl refl parsed
  under_ends env now (some id) w parsed =
      attempt_ends env _ w _ refl parsed
        λ v. payload_ends env now id (o.jsonb message.body) v parsed refl

  write_ends :
      (env : Envelope) (w : World (List Entry))
      → o.unmarshal message.body ≡ some env
      → Closes env w.db (write_entry o message env w)
  unfolding write_entry get_now
  write_ends env w parsed =
      draw_ends env _ w _ refl parsed
        λ n v. under_ends env w.now (o.scan_uuid (o.uuid w.now n)) v parsed

  parsed_ends :
      (env : Option Envelope) (w : World (List Entry))
      → o.unmarshal message.body ≡ env
      → let r = record_parsed o message env w in IsSettled r.0 w.db r.1.db
  unfolding record_parsed
  parsed_ends none w parsed = dropped refl refl parsed
  parsed_ends (some env) w parsed = write_ends env w parsed

  -- No event is lost, whichever of the calls fail: a message is acknowledged only with one new row
  -- in the ledger, of its subject and payload, and nothing else there touched; it is given up only
  -- if its text is no envelope; and in every other case it is sent for again, and the ledger is as
  -- it was.
  pub record_message-IsSettled :
      (w : World (List Entry)) → let r = record_message o message w in IsSettled r.0 w.db r.1.db
  unfolding record_message
  record_message-IsSettled w = parsed_ends (o.unmarshal message.body) w refl
