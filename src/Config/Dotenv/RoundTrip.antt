-- ===== src/Config/Dotenv/RoundTrip.antt =====
-- A .env file in the quoted form, written and loaded (dotenv.go).
use lynk.Base.{
  ℕ, ◌≤◌, ◌≡◌, refl, sym, ap, ◌∙◌, Bytes, codes, Bool, true, false, ◌&&◌, ◌||◌, [], ◌∷◌, ◌++◌,
  append_assoc, Option, none, some, arith, bytes_eq, bytes_eq_iff, All, has_prefix, cut_prefix,
  length, any, leb, ◌==◌, ==_iff, Option-cases, inl, inr, trim_space, if◌then◌else◌,
}
use lynk.Base.Trimmed.{AllSolid, trim_space_framed, trim_space-AllSolid}
use lynk.Config.{Env, lookup_env}
use lynk.Config.Dotenv.{
  contents, set_missing, load_parsed, load_line, load_lines, load_dotenv_file, parse_dotenv_line,
  parse_trimmed, on_cut, with_key, cut, unquote, last_byte, without_last, is_blank, drop_cr,
  scan_lines, max_line, has_nul,
}

-- The characters of the name of a variable.
abbrev pub is_name : ℕ → Bool
is_name c =
    (leb b'A' c && leb c b'Z')
    || (leb b'a' c && leb c b'z')
    || (leb b'0' c && leb c b'9')
    || c == b'_'

abbrev pub AllNames : Bytes → Type 0
AllNames k = All (λ c. is_name c ≡ true) k

AllSolid-AllNames : (k : Bytes) → AllNames k → AllSolid k
AllSolid-AllNames [] h = tt
AllSolid-AllNames (c ∷ k) h = (ground (arith, h.0), AllSolid-AllNames k h.1)

-- `KEY="value"`
abbrev pub assignment : Bytes → Bytes → Bytes
assignment key value = key ++ b'=' ∷ b'"' ∷ (value ++ b'"' ∷ [])

last_byte-append : (c : ℕ) (v : Bytes) (z : ℕ) → last_byte c (v ++ z ∷ []) ≡ z
unfolding last_byte
last_byte-append c [] z = refl
last_byte-append c (d ∷ v) z = last_byte-append d v z

without_last-append : (c : ℕ) (v : Bytes) (z : ℕ) → without_last c (v ++ z ∷ []) ≡ c ∷ v
unfolding without_last
without_last-append c [] z = refl
without_last-append c (d ∷ v) z = ap (◌∷◌ c) (without_last-append d v z)

unquote_quoted : (v : Bytes) → unquote (b'"' ∷ (v ++ b'"' ∷ [])) ≡ v
unfolding unquote last_byte without_last
unquote_quoted [] = refl
unquote_quoted (c ∷ v) = rw (last_byte-append c v b'"') (without_last-append c v b'"')

cut_assignment : (k r : Bytes) → AllNames k → cut (k ++ b'=' ∷ r) ≡ some (k, r)
unfolding cut
cut_assignment [] r h = refl
cut_assignment (c ∷ k) r h = ground (arith, h.0, cut_assignment k r h.1)

-- No name begins with a text that has a space in it, and no `=`.
no_export :
    (p k r : Bytes)
    → any (λ c. c == b' ') p ≡ true
    → any (λ c. c == b'=') p ≡ false
    → AllNames k
    → cut_prefix p (k ++ b'=' ∷ r) ≡ none
unfolding cut_prefix
no_export [] k r spaced plain h = cc
no_export (c ∷ p) [] r spaced plain h = ground (arith, spaced, plain)
no_export (c ∷ p) (d ∷ k) r spaced plain h =
    ground (arith, spaced, plain, h.0, no_export p k r, h.1)

-- The same line, with its last character apart.
assignment_end :
    (key value : Bytes) → assignment key value ≡ (key ++ b'=' ∷ b'"' ∷ value) ++ b'"' ∷ []
assignment_end key value = sym (append_assoc key (b'=' ∷ b'"' ∷ value) (b'"' ∷ []))

drop_cr-assignment : (c : ℕ) (k v : Bytes) → drop_cr (assignment (c ∷ k) v) ≡ assignment (c ∷ k) v
unfolding drop_cr
drop_cr-assignment c k v = rw (assignment_end k v, last_byte-append c (k ++ b'=' ∷ b'"' ∷ v) b'"')

trim-assignment :
    (c : ℕ) (k v : Bytes)
    → is_name c ≡ true
    → trim_space (assignment (c ∷ k) v) ≡ assignment (c ∷ k) v
trim-assignment c k v h =
    rw (assignment_end k v)
      (trim_space_framed c (k ++ b'=' ∷ b'"' ∷ v) b'"' (ground (arith, h)) refl)

parse_assignment :
    (c : ℕ) (k v : Bytes)
    → AllNames (c ∷ k)
    → parse_dotenv_line (drop_cr (assignment (c ∷ k) v)) ≡ some (c ∷ k, v)
unfolding parse_dotenv_line parse_trimmed on_cut with_key has_prefix
parse_assignment c k v h =
    rw (drop_cr-assignment c k v, trim-assignment c k v h.0)
      (rw
        (
          no_export (codes "export ") (c ∷ k) (b'"' ∷ (v ++ b'"' ∷ [])) refl refl h,
          cut_assignment (c ∷ k) (b'"' ∷ (v ++ b'"' ∷ [])) h,
          trim_space-AllSolid (c ∷ k) (AllSolid-AllNames (c ∷ k) h),
          trim_space_framed b'"' v b'"' refl refl,
          unquote_quoted v,
        )
        (ground (arith, h.0)))

abbrev has_newline : Bytes → Bool
has_newline = any (λ c. c == b'\n')

any-append :
    (p : ℕ → Bool) (s r : Bytes) → any p s ≡ false → any p r ≡ false → any p (s ++ r) ≡ false
any-append p [] r h g = g
any-append p (c ∷ s) r h g = ground (arith, h, any-append p s r, g)

any-AllNames : (d : ℕ) (k : Bytes) → is_name d ≡ false → AllNames k → any (λ c. c == d) k ≡ false
any-AllNames d [] n h = refl
any-AllNames d (c ∷ k) n h = ground (arith, n, h.0, any-AllNames d k n h.1, ==_iff c d)

scan_line : (l r : Bytes) → has_newline l ≡ false → scan_lines (l ++ b'\n' ∷ r) ≡ l ∷ scan_lines r
unfolding scan_lines
scan_line [] r h = refl
scan_line (c ∷ l) r h = ground (arith, h, scan_line l r)

-- A setting that a line in the quoted form can hold.
pub record IsWritable (key value : Bytes) : Type 0 where
  pub name : AllNames key
  pub named : is_blank key ≡ false
  pub one_line : has_newline value ≡ false
  pub no_nul : has_nul value ≡ false
  pub short : length (assignment key value) ≤ max_line

abbrev pub AllWritable : Env → Type 0
AllWritable settings = All (λ s. IsWritable s.0 s.1) settings

-- One line for each setting.
pub format : Env → Bytes
format [] = []
format ((key, value) ∷ settings) = assignment key value ++ b'\n' ∷ format settings

-- The value that was there, or else the one of the file.
abbrev pub or_else : Option Bytes → Option Bytes → Option Bytes
or_else (some v) o = some v
or_else none o = o

load_assignment :
    (key value : Bytes) (env : Env)
    → IsWritable key value
    → load_line (assignment key value) env ≡ set_missing key value env (lookup_env key env)
unfolding load_line load_parsed
load_assignment [] value env w = absurd (cc w.named)
load_assignment (c ∷ k) value env w =
    rw (parse_assignment c k value w.name) (ground (arith, w.short))

no_newline : (key value : Bytes) → IsWritable key value → has_newline (assignment key value) ≡ false
no_newline key value w =
    any-append (λ c. c == b'\n') key (b'=' ∷ b'"' ∷ (value ++ b'"' ∷ []))
      (any-AllNames b'\n' key refl w.name)
      (any-append (λ c. c == b'\n') value (b'"' ∷ []) w.one_line refl)

abbrev with_default : Bytes → Bytes → Env → Option Bytes → Env
with_default key value env none = (key, value) ∷ env
with_default key value env (some v) = env

set_missing_writable :
    (key value : Bytes) (env : Env) (there : Option Bytes)
    → IsWritable key value
    → set_missing key value env there ≡ (with_default key value env there, false)
unfolding set_missing
set_missing_writable key value env none w = rw (any-AllNames 0 key refl w.name, w.no_nul) refl
set_missing_writable key value env (some v) w = refl

lookup-with_default :
    (j key value : Bytes) (env : Env)
    → lookup_env j (with_default key value env (lookup_env key env))
      ≡ or_else (lookup_env j env) (if bytes_eq key j then some value else none)
unfolding lookup_env
lookup-with_default j key value env = elim (Option-cases (lookup_env key env)) [
  | inl absent ↦ rw absent (lookup_added absent)
  | inr (v, there) ↦ rw there (lookup_kept v there)
]
  where
    lookup_added :
        lookup_env key env ≡ none
        → (if bytes_eq key j then some value else lookup_env j env)
          ≡ or_else (lookup_env j env) (if bytes_eq key j then some value else none)
    lookup_added absent = ground (arith, absent, bytes_eq_iff key j)

    lookup_kept :
        (v : Bytes)
        → lookup_env key env ≡ some v
        → lookup_env j env
          ≡ or_else (lookup_env j env) (if bytes_eq key j then some value else none)
    lookup_kept v there = ground (arith, there, bytes_eq_iff key j)

or_else_assoc :
    (a : Option Bytes) (b : Bool) (v : Bytes) (c : Option Bytes)
    → or_else (or_else a (if b then some v else none)) c ≡ or_else a (if b then some v else c)
or_else_assoc none true v c = refl
or_else_assoc none false v c = refl
or_else_assoc (some x) b v c = refl

or_else-none : (a : Option Bytes) → a ≡ or_else a none
or_else-none none = refl
or_else-none (some v) = refl

load_first :
    (key value rest : Bytes) (env : Env)
    → IsWritable key value
    → load_lines (scan_lines (assignment key value ++ b'\n' ∷ rest)) env
      ≡ load_lines (scan_lines rest) (with_default key value env (lookup_env key env))
unfolding load_lines
load_first key value rest env w =
    rw
      (
        scan_line (assignment key value) rest (no_newline key value w),
        load_assignment key value env w,
        set_missing_writable key value env (lookup_env key env) w,
      )
      refl

-- A file written in the quoted form is read back: the loader does not give up, and afterwards every
-- variable has the value that it had in the environment before, and otherwise the one of its first
-- line, whatever spaces, quotes, `#` or `=` the values hold. (The names are of letters, digits and
-- underscores, the values without newline and NUL, the lines within the scanner's limit.)
pub load_dotenv-format :
    (settings env : Env)
    → AllWritable settings
    → let loaded = load_dotenv_file (contents (format settings)) env in
      (loaded.1 ≡ false)
      × ((key : Bytes)
          → lookup_env key loaded.0 ≡ or_else (lookup_env key env) (lookup_env key settings))
unfolding load_dotenv_file format load_lines lookup_env
load_dotenv-format [] env h = (refl, λ key. or_else-none (lookup_env key env))
load_dotenv-format ((key, value) ∷ settings) env h =
    let next = with_default key value env (lookup_env key env) in
    let (done, holds) = load_dotenv-format settings next h.1 in
    rw (load_first key value (format settings) env h.0) (
      done,
      λ j.
          holds j
          ∙ ap (λ a. or_else a (lookup_env j settings)) (lookup-with_default j key value env)
          ∙ or_else_assoc (lookup_env j env) (bytes_eq key j) value (lookup_env j settings),
    )
