-- ===== src/Config/Checks.antt =====
-- Validation and the list reader (platform/config: validate.go, service.go). A float is known by the
-- two comparisons that the checks make.
use lynk.Base.{
  ℕ, ◌-◌, ◌%◌, ◌^◌, Bytes, codes, Bool, true, false, List, [], ◌∷◌, ◌++◌, Option, none, some,
  trim_space, ◌==◌, ℤ, pos, negsuc, if◌then◌else◌,
}

-- The parsers of strconv and time, for a type of floats.
pub record Parsers (F : Type 0) : Type 0 where
  pub atoi : Bytes → Option ℤ
  pub parse_bool : Bytes → Option Bool
  pub parse_duration : Bytes → Option ℤ
  pub parse_float : Bytes → Option F
  pub one : F
  pub at_least_zero : F → Bool
  pub at_most_one : F → Bool

abbrev pub is_blank : Bytes → Bool
is_blank [] = true
is_blank (c ∷ s) = false

-- The problems found so far.
abbrev pub Validation : Type 0
Validation = List Bytes

unfoldable pub require : Bytes → Bytes → Validation → Validation
unfolding trim_space
require env_name value problems =
    if is_blank (trim_space value)
    then problems ++ (codes "missing required environment variable " ++ env_name) ∷ []
    else problems

unfoldable pub check : Bool → Bytes → Validation → Validation
check true problem problems = problems
check false problem problems = problems ++ problem ∷ []

-- `strings.Join(problems, "; ")`
abbrev pub join : Bytes → List Bytes → Bytes
join problem [] = problem
join problem (p ∷ ps) = problem ++ (codes "; " ++ join p ps)

-- `Err`: the error's text, if there are problems.
unfoldable pub validation_err : Validation → Option Bytes
validation_err [] = none
validation_err (p ∷ ps) = some (codes "config: " ++ join p ps)

abbrev add_item : Bytes → List Bytes → List Bytes
add_item [] items = items
add_item (c ∷ s) items = (c ∷ s) ∷ items

abbrev cons_part : ℕ → List Bytes → List Bytes
cons_part c [] = (c ∷ []) ∷ []
cons_part c (p ∷ ps) = (c ∷ p) ∷ ps

-- `strings.Split(raw, ",")`
unfoldable pub split_commas : Bytes → List Bytes
split_commas [] = [] ∷ []
split_commas (c ∷ s) =
    let rest = split_commas s in if c == b',' then [] ∷ rest else cons_part c rest

unfoldable pub trimmed_items : List Bytes → List Bytes
unfolding trim_space
trimmed_items [] = []
trimmed_items (p ∷ ps) = add_item (trim_space p) (trimmed_items ps)

unfoldable pub split_list : Bytes → List Bytes
unfolding split_commas trimmed_items
split_list [] = []
split_list (c ∷ s) = trimmed_items (split_commas (c ∷ s))

-- `uint32(n)` of an `int`.
abbrev pub to_uint32 : ℤ → ℕ
to_uint32 (pos n) = n % 2 ^ 32
to_uint32 (negsuc n) = 2 ^ 32 - 1 - n % 2 ^ 32

-- The error of `Load`: the .env file, or the problems.
pub data LoadError : Type 0 where
  dotenv_failed : LoadError
  invalid : Bytes → LoadError

pub data LoadResult (C : Type 0) : Type 0 where
  loaded : C → LoadResult C
  load_failed : LoadError → LoadResult C

abbrev pub unless_invalid : {C : Type 0} → C → Option Bytes → LoadResult C
unless_invalid cfg none = loaded cfg
unless_invalid cfg (some text) = load_failed (invalid text)
