-- ===== src/Effects/Redis.antt =====
-- The commands of Redis that the program uses, on a store of keys with a time to live.
use lynk.Base.{ℕ, ◌+◌, Bytes, Option, none, some, ltb, bytes_eq, if◌then◌else◌}

pub data Value : Type 0 where
  text : Bytes → Value
  number : ℕ → Value
  pair : Bytes → Bytes → Value

-- `pair` is the JSON of two strings. `none` is a key without a time to live.
pub record Cell : Type 0 where
  pub value : Value
  pub expires_at : Option ℕ

abbrev pub Store : Type 0
Store = Bytes → Option Cell

abbrev pub live : ℕ → Option Cell → Option Cell
live now none = none
live now (some c) = elim c.expires_at [
  | none ↦ some c
  | some t ↦ if ltb now t then some c else none
]

-- The value behind a key, if the key is there and has not expired.
unfoldable pub read : ℕ → Store → Bytes → Option Cell
read now s k = live now (s k)

unfoldable pub write : Store → Bytes → Option Cell → Store
unfolding bytes_eq
write s k c j = if bytes_eq k j then c else s j

-- SET key value PX ttl
unfoldable pub set : ℕ → Store → Bytes → Value → ℕ → Store
unfolding write
set now s k v ttl = write s k (some (record { value = v; expires_at = some (now + ttl) }))

-- DEL key
unfoldable pub del : Store → Bytes → Store
unfolding write
del s k = write s k none

incremented : Option Cell → Cell
incremented none = record { value = number 1; expires_at = none }
incremented (some c) = record c {
  value = elim c.value [ number n ↦ number (n + 1) | text t ↦ text t | pair a b ↦ pair a b ];
}

-- INCR key; on a text the command fails and the key stays as it is.
unfoldable pub incr : ℕ → Store → Bytes → Store
unfolding read write incremented
incr now s k = write s k (some (incremented (read now s k)))

-- EXPIRE key ttl, on a key that is there
unfoldable pub expire : ℕ → Store → Bytes → ℕ → Store
unfolding read write
expire now s k ttl = elim (read now s k) [
  | none ↦ s
  | some c ↦ write s k (some (record c { expires_at = some (now + ttl) }))
]

abbrev pub count : Option Cell → Option ℕ
count none = none
count (some c) = elim c.value [ number n ↦ some n | _ ↦ none ]
