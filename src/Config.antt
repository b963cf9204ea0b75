-- ===== src/Config.antt =====
-- Configuration from the environment (services/core/internal/platform/config; the gateway has a copy of
-- config.go, dotenv.go and validate.go of its own). Numbers, durations and flags are parsed by the
-- standard library, whose parsers are parameters.
pub mod Dotenv
pub mod Checks
pub mod Gateway
pub mod Core
pub mod Transport
mod Tests
use lynk.Base.{
  ℕ, Bytes, codes, Bool, true, false, List, [], ◌∷◌, ◌++◌, Option, none, some, bytes_eq, trim_space,
  ltb, ℤ, pos, negsuc, if◌then◌else◌,
}

-- The process environment: of several entries for one name the first counts.
abbrev pub Env : Type 0
Env = List (Bytes × Bytes)

-- `os.LookupEnv`
unfoldable pub lookup_env : Bytes → Env → Option Bytes
unfolding bytes_eq
lookup_env key [] = none
lookup_env key ((k, v) ∷ env) =
    let rest = lookup_env key env in if bytes_eq k key then some v else rest

-- `os.Getenv`
abbrev or_blank : Option Bytes → Bytes
or_blank none = []
or_blank (some v) = v

abbrev pub getenv : Bytes → Env → Bytes
getenv key env = or_blank (lookup_env key env)

abbrev pub or_fallback : {A : Type 0} → A → Option A → A
or_fallback fallback none = fallback
or_fallback fallback (some a) = a

-- A reader with a parser: unset, empty and malformed values give the fallback.
parsed : {A : Type 0} → (Bytes → Option A) → A → Bytes → A
parsed parse fallback [] = fallback
parsed parse fallback (c ∷ v) = or_fallback fallback (parse (c ∷ v))

-- `Int`, `Bool`, `Float64` and `Duration`, by their parser.
unfoldable pub read_env : {A : Type 0} → (Bytes → Option A) → Bytes → A → Env → A
unfolding parsed
read_env parse key fallback env = parsed parse fallback (getenv key env)

-- `String`
unfoldable pub string_env : Bytes → Bytes → Env → Bytes
unfolding read_env
string_env key fallback env = read_env some key fallback env

abbrev pub max_int32 : ℕ
max_int32 = 2147483647

-- The clamp of `Int32`; `negsuc n` is -(n + 1).
unfoldable pub clamp_int32 : ℤ → ℤ
clamp_int32 (pos n) = if ltb max_int32 n then pos max_int32 else pos n
clamp_int32 (negsuc n) = if ltb max_int32 n then negsuc max_int32 else negsuc n
