-- ===== src/Config/Dotenv/Tests.antt =====
-- The loader of .env files at concrete inputs.
use lynk.Base.{
  ◌≡◌, refl, Bytes, codes, false, [], ◌∷◌, none, some, arith, bytes_eq, trim_space, has_prefix,
  cut_prefix,
}
use lynk.Config.{Env, lookup_env}
use lynk.Config.Dotenv.{File, contents, parse_dotenv_line, load_dotenv, load_dotenv_file}
use lynk.Config.Dotenv.Keeping.{load_dotenv-Keeps}
use lynk.Config.Dotenv.RoundTrip.{format, or_else, load_dotenv-format}

exported : parse_dotenv_line (codes "  export DB_URL = 'a b' ") ≡ some (codes "DB_URL", codes "a b")
unfolding parse_dotenv_line bytes_eq trim_space has_prefix cut_prefix
exported = refl

commented : parse_dotenv_line (codes " # A=1") ≡ none
unfolding parse_dotenv_line bytes_eq trim_space has_prefix cut_prefix
commented = refl

unmatched : parse_dotenv_line (codes "A='b\"") ≡ some (codes "A", codes "'b\"")
unfolding parse_dotenv_line bytes_eq trim_space has_prefix cut_prefix
unmatched = refl

abbrev env : Env
env = (codes "B", []) ∷ []

abbrev settings : Env
settings = (codes "A_1", codes " #x= 'y ") ∷ (codes "B", codes "2") ∷ []

abbrev files : Bytes → File
files path = contents (codes "B=other")

load_dotenv-Keeps_example : lookup_env (codes "B") (load_dotenv files [] env).0 ≡ some []
unfolding lookup_env bytes_eq
load_dotenv-Keeps_example = load_dotenv-Keeps files [] env (codes "B") [] refl

load_dotenv-format_example :
    let loaded = load_dotenv_file (contents (format settings)) env in
    (loaded.1 ≡ false)
    × ((key : Bytes)
        → lookup_env key loaded.0 ≡ or_else (lookup_env key env) (lookup_env key settings))
load_dotenv-format_example = load_dotenv-format settings env (
  record {
    name = (refl, (refl, (refl, tt)));
    named = refl;
    one_line = refl;
    no_nul = refl;
    short = omega arith;
  },
  (
    record { name = (refl, tt); named = refl; one_line = refl; no_nul = refl; short = omega arith },
    tt,
  ),
)
