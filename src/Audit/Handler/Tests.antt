-- ===== src/Audit/Handler/Tests.antt =====
-- Runs of the listing.
use mathlib.Core.List.{Permᴰ}
use mathlib.Core.List.Permᴰ
use lynk.Base.{
  zero, suc, reverse, ℕ, ◌≡◌, refl, arith, Bytes, codes, false, List, [], ◌∷◌, none, some, pos,
  Option, bytes_eq, has_prefix,
}
use lynk.Effects.{World, attempt, get_db, pure, ok}
use lynk.Effects.Redis.{Cell}
use lynk.Authz.{Principal}
use lynk.Audit.{Entry}
use lynk.Audit.Handler.{list_audit_log, page_size}
use lynk.Audit.Handler.Paging.{walk, walk_all}

abbrev entry : ℕ → Bytes → Entry
entry at name = record {
  id = at ∷ [];
  subject = name;
  payload = [];
  occurred_at = at;
  recorded_at = at;
}

abbrev unused : Bytes → Option Cell
unused k = none

abbrev ledger : World (List Entry)
ledger = record {
  db =
      entry 1 (codes "note.created")
      ∷ entry 2 (codes "user.created")
      ∷ entry 3 (codes "note.deleted")
      ∷ [];
  in_tx = false;
  redis = unused;
  now = 5;
  draws = 0;
  faults = [];
  published = [];
  mails = [];
}

abbrev root : Principal
root = record { user_id = codes "r"; role = codes "admin"; token_type = codes "user" }

abbrev notes : List Entry
notes = entry 3 (codes "note.deleted") ∷ entry 1 (codes "note.created") ∷ []

-- Queries that come upon the rows in the order of the table.
abbrev in_order : ℕ → List Entry → List Entry
in_order k es = es

walk_all_example : walk in_order root 1 (codes "note.") ledger 2 0 ≡ notes
unfolding has_prefix bytes_eq
walk_all_example =
    walk_all in_order (λ k xs. Permᴰ.refl xs) root 1 (codes "note.") ledger notes refl refl
      (omega arith) (omega arith) (refl, (refl, (refl, (refl, (refl, tt))))) (Permᴰ.swap refl refl)
      ((omega arith, tt), (tt, tt)) 2 (omega arith)

-- Two rows of the same time: if the second query comes upon them the other way round, one is read
-- twice and one never.
abbrev twins : World (List Entry)
twins = record ledger { db = entry 1 (codes "note.a") ∷ entry 1 (codes "note.b") ∷ [] }

abbrev turning : ℕ → List Entry → List Entry
turning zero es = es
turning (suc k) es = reverse es

twins_run :
    walk turning root 1 [] twins 2 0 ≡ entry 1 (codes "note.b") ∷ entry 1 (codes "note.b") ∷ []
unfolding walk list_audit_log bytes_eq attempt get_db pure
twins_run = refl

-- The underscore of a prefix stands for any character.
wildcard_run :
    (list_audit_log (in_order 0) (some root) (pos 10) (pos 0) (codes "note_c") ledger).0
    ≡ ok (entry 1 (codes "note.created") ∷ [])
unfolding list_audit_log bytes_eq attempt get_db pure
wildcard_run = refl

-- A page of more than 200 is one of 50, and not one of 200.
large_run : page_size (pos 500) ≡ 50
unfolding page_size
large_run = refl
