-- ===== src/Audit/Handler.antt =====
-- Reading the ledger (services/core/internal/modules/audit/handler.go), on the statement of
-- services/core/sqlc/queries/audit.sql. The text form of an id is the id.
pub mod Newest
pub mod Paging
mod Tests
use lynk.Base.{
  ℕ, zero, suc, ◌≡◌, Bytes, codes, Bool, true, false, not, ◌&&◌, ◌||◌, List, [], ◌∷◌, ◌++◌, Option,
  none, some, ltb, ◌==◌, bytes_eq, filter, take, drop, ℤ, pos, negsuc, if◌then◌else◌,
}
use lynk.Effects.{
  App, Result, ok, err, infrastructure, unauthenticated, admin_required, internal, pure, raise,
  attempt, get_db, handle, ◌>>=◌, ◌>>◌,
}
use lynk.Authz.{Principal}
use lynk.Audit.{Entry}

-- A pattern of `LIKE`: `%` is any text, `_` any character, and a backslash takes the next one as it is.
pub data Token : Type 0 where
  any_text any_character : Token
  this : ℕ → Token

abbrev pub token : ℕ → Token
token c = if c == b'%' then any_text else if c == b'_' then any_character else this c

unfoldable pub tokens : Bytes → List Token
tokens [] = []
tokens (c ∷ []) = token c ∷ []
tokens (c ∷ d ∷ s) =
    let rest = tokens (d ∷ s) in
    let escaped = tokens s in if c == b'\\' then this d ∷ escaped else token c ∷ rest

-- On ASCII text, where a character is a byte.
unfoldable pub like : List Token → Bytes → Bool
like [] [] = true
like [] (c ∷ s) = false
like (any_text ∷ ts) [] = like ts []
like (any_text ∷ ts) (c ∷ s) = like ts (c ∷ s) || like (any_text ∷ ts) s
like (any_character ∷ ts) [] = false
like (any_character ∷ ts) (c ∷ s) = like ts s
like (this d ∷ ts) [] = false
like (this d ∷ ts) (c ∷ s) = (d == c) && like ts s

abbrev is_blank : Bytes → Bool
is_blank [] = true
is_blank (c ∷ s) = false

-- `$prefix = '' OR subject LIKE $prefix || '%'`
unfoldable pub is_listed : Bytes → Entry → Bool
unfolding like tokens
is_listed prefix e = is_blank prefix || like (tokens (prefix ++ b'%' ∷ [])) e.subject

-- ORDER BY recorded_at DESC
unfoldable pub insert_newest : Entry → List Entry → List Entry
insert_newest e [] = e ∷ []
insert_newest e (f ∷ fs) =
    let rest = insert_newest e fs in
    if ltb e.recorded_at f.recorded_at then f ∷ rest else e ∷ f ∷ fs

unfoldable pub newest_first : List Entry → List Entry
unfolding insert_newest
newest_first [] = []
newest_first (e ∷ es) = insert_newest e (newest_first es)

-- ListAuditEntries; PostgreSQL refuses a negative offset. `scan` is the order in which it comes upon
-- the rows of this one query: rows of the same time stay in that order, which may be another one the
-- next time.
unfoldable pub list_audit_entries :
    (List Entry → List Entry) → ℕ → ℤ → Bytes → App (List Entry) (List Entry)
unfolding is_listed newest_first
list_audit_entries scan limit (negsuc n) prefix = raise infrastructure
list_audit_entries scan limit (pos offset) prefix = do
  attempt
  rows ← get_db
  pure (take limit (drop offset (newest_first (scan (filter (is_listed prefix) rows)))))

-- What is not a number from 1 to 200 is taken as 50.
unfoldable pub page_size : ℤ → ℕ
page_size (negsuc n) = 50
page_size (pos n) = if n == 0 || ltb 200 n then 50 else n

abbrev or_internal : {A : Type 0} → App (List Entry) A → App (List Entry) A
or_internal m = handle m λ r w. elim r [ ok a ↦ (ok a, w) | err e ↦ (err internal, w) ]

abbrev is_admin : Principal → Bool
is_admin p = bytes_eq p.role (codes "admin") || bytes_eq p.token_type (codes "admin")

unfoldable pub list_audit_log :
    (List Entry → List Entry) → Option Principal → ℤ → ℤ → Bytes → App (List Entry) (List Entry)
unfolding list_audit_entries page_size
list_audit_log scan none limit offset prefix = raise unauthenticated
list_audit_log scan (some p) limit offset prefix =
    if not (is_admin p)
    then raise admin_required
    else or_internal (list_audit_entries scan (page_size limit) offset prefix)
