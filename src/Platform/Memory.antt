-- ===== src/Platform/Memory.antt =====
-- The soft memory limit (services/core/internal/platform/runtimeenv/runtimeenv.go; the gateway keeps a
-- copy). Products are those of int64. The value is what SetMemoryLimit is given; `none` is no call, or
-- one with a negative number, which changes nothing.
pub mod Limit
use lynk.Base.{
  ℕ, zero, suc, ◌*◌, ◌/◌, ◌%◌, ◌^◌, Bytes, codes, Bool, ◌||◌, Option, none, some, ℤ, pos, negsuc,
  bytes_eq, trim_space, ltb, ◌==◌, if◌then◌else◌, [],
}
use lynk.Config.{Env, getenv}

-- `x * 9 / 10` for a product that may wrap around.
unfoldable pub nine_tenths : ℕ → Option ℕ
nine_tenths x = let m = x * 9 % 2 ^ 64 in if ltb m (2 ^ 63) then some (m / 10) else none

-- `text` is the contents of memory.max, `none` if it cannot be read; 0 is unknown or unlimited.
unfoldable pub cgroup_limit : (Bytes → Option ℤ) → Option Bytes → ℕ
unfolding trim_space bytes_eq
cgroup_limit parse_int none = 0
cgroup_limit parse_int (some raw) =
    let text = trim_space raw in
    if bytes_eq text [] || bytes_eq text (codes "max")
    then 0
    else elim (parse_int text) [ none ↦ 0 | some (negsuc n) ↦ 0 | some (pos n) ↦ n ]

abbrev detected : ℕ → Option ℕ
detected zero = none
detected (suc n) = nine_tenths (suc n)

abbrev from_megabytes : Option ℕ → Option ℤ → Option ℕ
from_megabytes fallback (some (pos (suc n))) = nine_tenths (suc n * 1024 * 1024)
from_megabytes fallback _ = fallback

unfoldable pub memory_limit : (Bytes → Option ℤ) → Option Bytes → Env → Option ℕ
unfolding nine_tenths cgroup_limit
memory_limit parse_int file env =
    if bytes_eq (getenv (codes "GOMEMLIMIT") env) []
    then (if bytes_eq (getenv (codes "MEMORY_LIMIT_MB") env) []
        then detected (cgroup_limit parse_int file)
        else from_megabytes (detected (cgroup_limit parse_int file))
            (parse_int (getenv (codes "MEMORY_LIMIT_MB") env)))
    else none
