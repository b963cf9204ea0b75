-- ===== src/Config/Dotenv/Keeping.antt =====
-- What the loader of .env files (dotenv.go) leaves alone.
use lynk.Base.{
  ◌≡◌, Bytes, true, false, List, [], ◌∷◌, Option, none, some, arith, bytes_eq_iff, Option-cases,
  inl, inr,
}
use lynk.Config.{Env, lookup_env}
use lynk.Config.Dotenv.{
  Loaded, File, missing, unreadable, contents, setenv, settled, set_missing, load_parsed, load_line,
  unless_failed, load_lines, load_dotenv_file, load_each, load_dotenv, parse_dotenv_line, drop_cr,
  scan_lines, or_default,
}

-- What is set stays set, to the same value.
abbrev pub Keeps : Env → Env → Type 0
Keeps env after =
    (key value : Bytes) → lookup_env key env ≡ some value → lookup_env key after ≡ some value

Keeps-settled :
    (env : Env) (key value : Bytes)
    → lookup_env key env ≡ none
    → Keeps env (settled env (setenv key value env)).0
unfolding lookup_env
Keeps-settled env key value absent k v set = ground (arith, absent, set, bytes_eq_iff key k)

Keeps-load_parsed :
    (env : Env) (parsed : Option (Bytes × Bytes)) → Keeps env (load_parsed env parsed).0
unfolding load_parsed set_missing
Keeps-load_parsed env none k v set = set
Keeps-load_parsed env (some (key, value)) k v set = elim (Option-cases (lookup_env key env)) [
  | inl absent ↦ rw absent (Keeps-settled env key value absent k v set)
  | inr (old, there) ↦ rw there set
]

Keeps-load_line : (line : Bytes) (env : Env) → Keeps env (load_line line env).0
unfolding load_line
Keeps-load_line line env k v set =
    ground (arith, set, Keeps-load_parsed env (parse_dotenv_line (drop_cr line)) k v set)

Keeps-unless_failed :
    (env : Env) (first : Loaded) (next : Env → Loaded)
    → Keeps env first.0
    → ((e : Env) → Keeps e (next e).0)
    → Keeps env (unless_failed first next).0
Keeps-unless_failed env (e, true) next kept then_kept k v set = kept k v set
Keeps-unless_failed env (e, false) next kept then_kept k v set = then_kept e k v (kept k v set)

Keeps-load_lines : (lines : List Bytes) (env : Env) → Keeps env (load_lines lines env).0
unfolding load_lines
Keeps-load_lines [] env = λ k v set. set
Keeps-load_lines (l ∷ ls) env =
    Keeps-unless_failed env (load_line l env) (load_lines ls) (Keeps-load_line l env)
      (λ e. Keeps-load_lines ls e)

Keeps-load_file : (file : File) (env : Env) → Keeps env (load_dotenv_file file env).0
unfolding load_dotenv_file
Keeps-load_file missing env = λ k v set. set
Keeps-load_file unreadable env = λ k v set. set
Keeps-load_file (contents text) env = Keeps-load_lines (scan_lines text) env

Keeps-load_each :
    (files : Bytes → File) (paths : List Bytes) (env : Env)
    → Keeps env (load_each files paths env).0
unfolding load_each
Keeps-load_each files [] env = λ k v set. set
Keeps-load_each files (p ∷ ps) env =
    Keeps-unless_failed env (load_dotenv_file (files p) env) (load_each files ps)
      (Keeps-load_file (files p) env) (λ e. Keeps-load_each files ps e)

-- The real environment wins: whatever the .env files hold, and whether or not the loader gives up on
-- one of them, a variable that was set before, even to the empty text, has the same value afterwards.
pub load_dotenv-Keeps :
    (files : Bytes → File) (paths : List Bytes) (env : Env)
    → Keeps env (load_dotenv files paths env).0
unfolding load_dotenv
load_dotenv-Keeps files paths env = Keeps-load_each files (or_default paths) env
