-- ===== src/Config/Dotenv.antt =====
-- The loader of .env files (platform/config/dotenv.go). A path is taken as it is after cleaning; a
-- file that can be opened is read to its end.
pub mod Keeping
mod Tests
pub mod RoundTrip
use lynk.Base.{
  ℕ, Bytes, codes, Bool, true, false, not, ◌&&◌, ◌||◌, List, [], ◌∷◌, ◌++◌, Option, none, some,
  bytes_eq, trim_space, ltb, ◌==◌, has_prefix, cut_prefix, length, any, if◌then◌else◌,
}
use lynk.Config.{Env, lookup_env}

-- `strings.TrimPrefix(line, "export ")`
abbrev or_whole : Bytes → Option Bytes → Bytes
or_whole line none = line
or_whole line (some rest) = rest

abbrev cons_first : ℕ → Option (Bytes × Bytes) → Option (Bytes × Bytes)
cons_first c none = none
cons_first c (some (before, after)) = some (c ∷ before, after)

-- `strings.Cut(line, "=")`; `none` is `found == false`.
unfoldable pub cut : Bytes → Option (Bytes × Bytes)
cut [] = none
cut (c ∷ s) = let rest = cut s in if c == b'=' then some ([], s) else cons_first c rest

-- The last byte of `c ∷ s`, and what stands before it.
unfoldable pub last_byte : ℕ → Bytes → ℕ
last_byte c [] = c
last_byte c (d ∷ s) = last_byte d s

unfoldable pub without_last : ℕ → Bytes → Bytes
without_last c [] = []
without_last c (d ∷ s) = c ∷ without_last d s

-- The optional matching quotes.
unfoldable pub unquote : Bytes → Bytes
unfolding last_byte without_last
unquote [] = []
unquote (q ∷ []) = q ∷ []
unquote (q ∷ c ∷ s) =
    let last = last_byte c s in
    if (q == b'"' && last == b'"') || (q == b'\'' && last == b'\'')
    then without_last c s
    else q ∷ c ∷ s

abbrev pub is_blank : Bytes → Bool
is_blank [] = true
is_blank (c ∷ s) = false

with_key : Bytes → Bytes → Option (Bytes × Bytes)
unfolding unquote trim_space
with_key key value = if is_blank key then none else some (key, unquote (trim_space value))

on_cut : Option (Bytes × Bytes) → Option (Bytes × Bytes)
unfolding with_key
on_cut none = none
on_cut (some (key, value)) = with_key (trim_space key) value

-- On a line without surrounding space.
parse_trimmed : Bytes → Option (Bytes × Bytes)
unfolding on_cut cut has_prefix cut_prefix
parse_trimmed line =
    if is_blank line || has_prefix (codes "#") line
    then none
    else on_cut (cut (or_whole line (cut_prefix (codes "export ") line)))

unfoldable pub parse_dotenv_line : Bytes → Option (Bytes × Bytes)
unfolding parse_trimmed
parse_dotenv_line line = parse_trimmed (trim_space line)

abbrev prepend : ℕ → List Bytes → List Bytes
prepend c [] = (c ∷ []) ∷ []
prepend c (l ∷ ls) = (c ∷ l) ∷ ls

-- The lines of `bufio.Scanner`, before the carriage return is dropped.
unfoldable pub scan_lines : Bytes → List Bytes
scan_lines [] = []
scan_lines (c ∷ s) = let rest = scan_lines s in if c == b'\n' then [] ∷ rest else prepend c rest

unfoldable pub drop_cr : Bytes → Bytes
unfolding last_byte without_last
drop_cr [] = []
drop_cr (c ∷ s) = if last_byte c s == b'\r' then without_last c s else c ∷ s

-- `bufio.MaxScanTokenSize`: a line and its newline have to fit.
abbrev pub max_line : ℕ
max_line = 65535

abbrev pub has_nul : Bytes → Bool
has_nul = any (λ c. c == 0)

-- `os.Setenv`, for a key that is not empty and has no `=`; `none` is an error.
abbrev pub setenv : Bytes → Bytes → Env → Option Env
setenv key value env = if has_nul key || has_nul value then none else some ((key, value) ∷ env)

-- The environment, and whether the loader gave up.
abbrev pub Loaded : Type 0
Loaded = Env × Bool

abbrev settled : Env → Option Env → Loaded
settled env none = (env, true)
settled env (some next) = (next, false)

-- A variable that is there, even an empty one, wins.
set_missing : Bytes → Bytes → Env → Option Bytes → Loaded
set_missing key value env (some v) = (env, false)
set_missing key value env none = settled env (setenv key value env)

load_parsed : Env → Option (Bytes × Bytes) → Loaded
unfolding set_missing lookup_env
load_parsed env none = (env, false)
load_parsed env (some (key, value)) = set_missing key value env (lookup_env key env)

-- One round of the scanner's loop.
unfoldable pub load_line : Bytes → Env → Loaded
unfolding load_parsed parse_dotenv_line drop_cr
load_line line env =
    if ltb max_line (length line)
    then (env, true)
    else load_parsed env (parse_dotenv_line (drop_cr line))

abbrev pub unless_failed : Loaded → (Env → Loaded) → Loaded
unless_failed (env, true) next = (env, true)
unless_failed (env, false) next = next env

unfoldable pub load_lines : List Bytes → Env → Loaded
unfolding load_line
load_lines [] env = (env, false)
load_lines (l ∷ ls) env = unless_failed (load_line l env) (load_lines ls)

-- What opening a path gives.
pub data File : Type 0 where
  missing unreadable : File
  contents : Bytes → File

unfoldable pub load_dotenv_file : File → Env → Loaded
unfolding load_lines scan_lines
load_dotenv_file missing env = (env, false)
load_dotenv_file unreadable env = (env, true)
load_dotenv_file (contents text) env = load_lines (scan_lines text) env

load_each : (Bytes → File) → List Bytes → Env → Loaded
unfolding load_dotenv_file
load_each files [] env = (env, false)
load_each files (path ∷ paths) env =
    unless_failed (load_dotenv_file (files path) env) (load_each files paths)

abbrev pub or_default : List Bytes → List Bytes
or_default [] = codes ".env" ∷ []
or_default (p ∷ ps) = p ∷ ps

unfoldable pub load_dotenv : (Bytes → File) → List Bytes → Env → Loaded
unfolding load_each
load_dotenv files paths env = load_each files (or_default paths) env
