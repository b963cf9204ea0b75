-- ===== src/Audit/Handler/Paging.antt =====
-- What a client reads that walks through the pages of the ledger.
use mathlib.Core.List.{Permᴰ}
use mathlib.Core.List.Permᴰ
use lynk.Base.{
  ℕ, zero, suc, ◌+◌, ◌-◌, ◌*◌, ◌≤◌, ◌≡◌, refl, sym, ap, ap₂, ◌∙◌, arith, Bytes, Bool, true, not,
  ◌&&◌, List, [], ◌∷◌, ◌++◌, map, some, ◌==◌, bytes_eq, has_prefix, All, filter, length, take, drop,
  pos,
}
use lynk.Effects.{World, Result, ok, err, attempt, get_db, pure}
use lynk.Authz.{Principal}
use lynk.Audit.{Entry}
use lynk.Audit.Handler.Newest.{IsNewestFirst, newest_first_listing}
use lynk.Audit.Handler.{
  any_text, this, tokens, like, is_listed, newest_first, list_audit_entries, page_size, is_admin,
  list_audit_log,
}

-- Neither `%`, `_` nor a backslash.
abbrev pub is_plain : ℕ → Bool
is_plain c = not (c == b'%') && not (c == b'_') && not (c == b'\\')

abbrev pub IsPlain : Bytes → Type 0
IsPlain s = All (λ c. is_plain c ≡ true) s

tokens-IsPlain : (s : Bytes) → IsPlain s → tokens (s ++ b'%' ∷ []) ≡ map this s ++ any_text ∷ []
unfolding tokens
tokens-IsPlain [] h = refl
tokens-IsPlain (c ∷ []) h = ground (arith, h.0)
tokens-IsPlain (c ∷ d ∷ s) h = ground (arith, h.0, tokens-IsPlain (d ∷ s) h.1)

like_any_text : (s : Bytes) → like (any_text ∷ []) s ≡ true
unfolding like
like_any_text [] = refl
like_any_text (c ∷ s) = like_any_text s

like_this : (p s : Bytes) → like (map this p ++ any_text ∷ []) s ≡ has_prefix p s
unfolding like has_prefix
like_this [] s = like_any_text s
like_this (d ∷ p) [] = refl
like_this (d ∷ p) (c ∷ s) = rw (like_this p s) refl

-- The entries under a prefix.
abbrev pub under : Bytes → Entry → Bool
under prefix e = has_prefix prefix e.subject

is_listed-under :
    (prefix : Bytes) (e : Entry) → IsPlain prefix → is_listed prefix e ≡ under prefix e
unfolding is_listed has_prefix
is_listed-under [] e h = refl
is_listed-under (c ∷ p) e h =
    ap (λ t. like t e.subject) (tokens-IsPlain (c ∷ p) h) ∙ like_this (c ∷ p) e.subject

zero_add : (n : ℕ) → 0 + n ≡ n
zero_add n = omega arith

suc_add : (m n : ℕ) → suc m + n ≡ suc (m + n)
suc_add m n = omega arith

module _ {A : Type 0} where
  filter_agree : (p q : A → Bool) (xs : List A) → ((x : A) → p x ≡ q x) → filter p xs ≡ filter q xs
  filter_agree p q [] h = refl
  filter_agree p q (x ∷ xs) h = rw (h x, filter_agree p q xs h) refl

  drop_nil : (n : ℕ) → ◌≡◌ {A = List A} (drop n []) []
  drop_nil zero = refl
  drop_nil (suc n) = refl

  drop_add : (m n : ℕ) (xs : List A) → drop (m + n) xs ≡ drop n (drop m xs)
  drop_add zero n xs = ap (λ k. drop k xs) (zero_add n)
  drop_add (suc m) n [] = drop_nil (suc m + n) ∙ sym (drop_nil n)
  drop_add (suc m) n (x ∷ xs) = ap (λ k. drop k (x ∷ xs)) (suc_add m n) ∙ drop_add m n xs

  take_all : (n : ℕ) (xs : List A) → length xs ≤ n → take n xs ≡ xs
  take_all zero [] h = refl
  take_all zero (x ∷ xs) h = absurd (omega (arith, h))
  take_all (suc n) [] h = refl
  take_all (suc n) (x ∷ xs) h = ap (λ r. x ∷ r) (take_all n xs (omega (arith, h)))

  -- The first pages of `n` elements each, one after the other.
  pages : ℕ → ℕ → List A → List A
  pages n zero xs = []
  pages n (suc k) xs = take n xs ++ pages n k (drop n xs)

  length-drop : (n : ℕ) (xs : List A) → length (drop n xs) ≡ length xs - n
  length-drop zero xs = omega arith
  length-drop (suc n) [] = omega arith
  length-drop (suc n) (x ∷ xs) = length-drop n xs ∙ omega arith

  take-drop : (n : ℕ) (xs : List A) → take n xs ++ drop n xs ≡ xs
  take-drop zero xs = refl
  take-drop (suc n) [] = refl
  take-drop (suc n) (x ∷ xs) = ap (λ r. x ∷ r) (take-drop n xs)

  pages_all : (n k : ℕ) (xs : List A) → length xs ≤ k * n → pages n k xs ≡ xs
  unfolding pages
  pages_all n zero [] h = refl
  pages_all n zero (x ∷ xs) h = absurd (omega (arith, h))
  pages_all n (suc k) xs h =
      ap (λ r. take n xs ++ r) (pages_all n k (drop n xs) (grind (arith, length-drop n xs, h)))
      ∙ take-drop n xs

abbrev page_of : Result (List Entry) → List Entry
page_of (ok es) = es
page_of (err e) = []

-- A client that asks for so many pages of `n` entries, from an offset on. Each of its queries comes
-- upon the rows in an order of its own.
unfoldable pub walk :
    (ℕ → List Entry → List Entry) → Principal → ℕ → Bytes → World (List Entry) → ℕ → ℕ → List Entry
unfolding list_audit_log
walk scan p n prefix w zero offset = []
walk scan p n prefix w (suc k) offset =
    page_of (list_audit_log (scan k) (some p) (pos n) (pos offset) prefix w).0
    ++ walk scan p n prefix w k (offset + n)

module _ (scan : ℕ → List Entry → List Entry)
    (scans : (k : ℕ) (xs : List Entry) → Permᴰ (scan k xs) xs) (p : Principal) (n : ℕ)
    (prefix : Bytes) (w : World (List Entry)) (listing : List Entry) (admin : is_admin p ≡ true)
    (quiet : w.faults ≡ []) (some_rows : 1 ≤ n) (few_rows : n ≤ 200) (plain : IsPlain prefix)
    (complete : Permᴰ listing (filter (under prefix) w.db)) (newest : IsNewestFirst listing) where
  page_size_kept : page_size (pos n) ≡ n
  unfolding page_size
  page_size_kept = ground (arith, some_rows, few_rows)

  -- Every query sorts the rows into the one listing.
  sorted_alike : (k : ℕ) → newest_first (scan k (filter (is_listed prefix) w.db)) ≡ listing
  sorted_alike k =
      ap (λ es. newest_first (scan k es))
        (filter_agree (is_listed prefix) (under prefix) w.db (λ e. is_listed-under prefix e plain))
      ∙ newest_first_listing listing (scan k (filter (under prefix) w.db)) newest
          (Permᴰ.trans complete (Permᴰ.symm (scans k (filter (under prefix) w.db))))

  page :
      (k offset : ℕ)
      → page_of (list_audit_log (scan k) (some p) (pos n) (pos offset) prefix w).0
        ≡ take n (drop offset listing)
  unfolding list_audit_log list_audit_entries attempt get_db pure bytes_eq
  page k offset = rw (admin, page_size_kept, quiet, sorted_alike k) refl

  walk-pages : (k offset : ℕ) → walk scan p n prefix w k offset ≡ pages n k (drop offset listing)
  unfolding walk pages
  walk-pages zero offset = refl
  walk-pages (suc k) offset =
      ap₂ ◌++◌ (page k offset)
        (walk-pages k (offset + n) ∙ ap (pages n k) (drop_add offset n listing))

  -- An administrator who asks for one page after the other, each of the same size from 1 to 200, until
  -- there are as many rows as the ledger has under a prefix, reads exactly these, each one once, and
  -- each before all that were recorded earlier. (No two of these rows were recorded at the same time;
  -- the prefix has no `%`, `_` or backslash; the ledger stands still meanwhile, and no call fails.)
  pub walk_all : (k : ℕ) → length listing ≤ k * n → walk scan p n prefix w k 0 ≡ listing
  walk_all k enough = walk-pages k 0 ∙ pages_all n k listing enough
