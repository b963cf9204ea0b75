-- ===== src/Audit/Handler/Newest.antt =====
-- ORDER BY recorded_at DESC on rows of different times.
use mathlib.Core.List.{Permᴰ}
use lynk.Base.{◌<◌, ◌≡◌, ◌≢◌, refl, sym, ap, ap₂, subst, ◌∙◌, arith, List, [], ◌∷◌, All}
use lynk.Audit.{Entry}
use lynk.Audit.Handler.{insert_newest, newest_first}

-- Each entry was recorded later than every one after it.
abbrev pub IsNewestFirst : List Entry → Type 0
IsNewestFirst [] = Unit
IsNewestFirst (e ∷ es) = All (λ f. f.recorded_at < e.recorded_at) es × IsNewestFirst es

abbrev Apart : Entry → List Entry → Type 0
Apart e es = All (λ f. f.recorded_at ≢ e.recorded_at) es

-- No two entries of the same time.
abbrev AllApart : List Entry → Type 0
AllApart [] = Unit
AllApart (e ∷ es) = Apart e es × AllApart es

Apart-older :
    (e : Entry) (es : List Entry) → All (λ f. f.recorded_at < e.recorded_at) es → Apart e es
Apart-older e [] h = tt
Apart-older e (f ∷ es) h = (λ same. omega (arith, h.0, same), Apart-older e es h.1)

AllApart-IsNewestFirst : (es : List Entry) → IsNewestFirst es → AllApart es
AllApart-IsNewestFirst [] h = tt
AllApart-IsNewestFirst (e ∷ es) h = (Apart-older e es h.0, AllApart-IsNewestFirst es h.1)

insert_newest_front :
    (e : Entry) (es : List Entry)
    → All (λ f. f.recorded_at < e.recorded_at) es
    → insert_newest e es ≡ e ∷ es
unfolding insert_newest
insert_newest_front e [] h = refl
insert_newest_front e (f ∷ es) h = ground (arith, h.0)

pub newest_first-IsNewestFirst : (es : List Entry) → IsNewestFirst es → newest_first es ≡ es
unfolding newest_first
newest_first-IsNewestFirst [] h = refl
newest_first-IsNewestFirst (e ∷ es) h =
    ap (insert_newest e) (newest_first-IsNewestFirst es h.1) ∙ insert_newest_front e es h.0

insert_newest_swap :
    (a b : Entry) (es : List Entry)
    → a.recorded_at ≢ b.recorded_at
    → insert_newest a (insert_newest b es) ≡ insert_newest b (insert_newest a es)
unfolding insert_newest
insert_newest_swap a b [] h = ground (arith, h)
insert_newest_swap a b (f ∷ es) h = ground (arith, h, insert_newest_swap a b es h)

All-Perm : (P : Entry → Type 0) (xs ys : List Entry) → Permᴰ xs ys → All P xs → All P ys
All-Perm P _ _ Permᴰ.nil h = h
All-Perm P _ _ (Permᴰ.cons {a} {b} {l₁} {l₂} e p) h = (subst P e h.0, All-Perm P l₁ l₂ p h.1)
All-Perm P _ _ (Permᴰ.swap {a} {b} {a'} {b'} {l} e f) h = (subst P f h.1.0, (subst P e h.0, h.1.1))
All-Perm P _ _ (Permᴰ.trans {l₁} {l₂} {l₃} p q) h = All-Perm P l₂ l₃ q (All-Perm P l₁ l₂ p h)

AllApart-Perm : (xs ys : List Entry) → Permᴰ xs ys → AllApart xs → AllApart ys
AllApart-Perm _ _ Permᴰ.nil h = h
AllApart-Perm _ _ (Permᴰ.cons {a} {b} {l₁} {l₂} e p) h =
    (subst (λ x. Apart x l₂) e (All-Perm _ l₁ l₂ p h.0), AllApart-Perm l₁ l₂ p h.1)
AllApart-Perm _ _ (Permᴰ.swap {a} {b} {a'} {b'} {l} e f) h = (
  (
    λ same. h.0.0 (ap (λ x. x.recorded_at) f ∙ sym same ∙ sym (ap (λ x. x.recorded_at) e)),
    subst (λ x. Apart x l) f h.1.0,
  ),
  (subst (λ x. Apart x l) e h.0.1, h.1.1),
)
AllApart-Perm _ _ (Permᴰ.trans {l₁} {l₂} {l₃} p q) h =
    AllApart-Perm l₂ l₃ q (AllApart-Perm l₁ l₂ p h)

newest_first-Perm :
    (xs ys : List Entry) → Permᴰ xs ys → AllApart xs → newest_first xs ≡ newest_first ys
unfolding newest_first
newest_first-Perm _ _ Permᴰ.nil h = refl
newest_first-Perm _ _ (Permᴰ.cons {a} {b} {l₁} {l₂} e p) h =
    ap₂ insert_newest e (newest_first-Perm l₁ l₂ p h.1)
newest_first-Perm _ _ (Permᴰ.swap {a} {b} {a'} {b'} {l} e f) h =
    insert_newest_swap a b (newest_first l) (λ same. h.0.0 (sym same))
    ∙ ap₂ (λ x y. insert_newest x (insert_newest y (newest_first l))) f e
newest_first-Perm _ _ (Permᴰ.trans {l₁} {l₂} {l₃} p q) h =
    newest_first-Perm l₁ l₂ p h ∙ newest_first-Perm l₂ l₃ q (AllApart-Perm l₁ l₂ p h)

-- In whatever order the rows are come upon, the listing is the one that is newest first.
pub newest_first_listing : (l xs : List Entry) → IsNewestFirst l → Permᴰ l xs → newest_first xs ≡ l
newest_first_listing l xs h p =
    sym (newest_first-Perm l xs p (AllApart-IsNewestFirst l h)) ∙ newest_first-IsNewestFirst l h
