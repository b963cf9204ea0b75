-- ===== src/Base/Space.antt =====
-- `strings.TrimSpace` on the bytes of a Go string: the ASCII spaces and the spaces of Unicode in
-- their UTF-8 encoding.
use mathlib.Core.Bool.{Bool, ◌&&◌, ◌||◌}
use mathlib.Core.List.{[], ◌∷◌, reverse}
use Prim.Native.Nat.{ℕ}
use lynk.Base.Tests.{leb, ◌==◌, if◌then◌else◌}
use lynk.Base.Text.{Bytes}

abbrev pub is_space : ℕ → Bool
is_space c = (leb 9 c && leb c 13) || c == b' '

-- U+0085 and U+00A0
abbrev pub is_space2 : ℕ → ℕ → Bool
is_space2 a b = a == 0xC2 && (b == 0x85 || b == 0xA0)

-- U+1680, U+2000 to U+200A, U+2028, U+2029, U+202F, U+205F, U+3000
abbrev pub is_space3 : ℕ → ℕ → ℕ → Bool
is_space3 a b c =
    (a == 0xE1 && b == 0x9A && c == 0x80)
    || (a == 0xE2
        && b == 0x80
        && ((leb 0x80 c && leb c 0x8A) || c == 0xA8 || c == 0xA9 || c == 0xAF))
    || (a == 0xE2 && b == 0x81 && c == 0x9F)
    || (a == 0xE3 && b == 0x80 && c == 0x80)

-- Drops the spaces at the head, given the tests for those of two and of three bytes.
unfoldable pub strip : (ℕ → ℕ → Bool) → (ℕ → ℕ → ℕ → Bool) → Bytes → Bytes
strip two three [] = []
strip two three (a ∷ []) = if is_space a then [] else a ∷ []
strip two three (a ∷ b ∷ []) =
    let rest = strip two three (b ∷ []) in
    if is_space a then rest else if two a b then [] else a ∷ b ∷ []
strip two three (a ∷ b ∷ c ∷ s) =
    let after1 = strip two three (b ∷ c ∷ s) in
    let after2 = strip two three (c ∷ s) in
    let after3 = strip two three s in
    if is_space a
    then after1
    else if two a b
    then after2
    else if three a b c
    then after3
    else a ∷ b ∷ c ∷ s

unfoldable pub trim_left : Bytes → Bytes
unfolding strip
trim_left = strip is_space2 is_space3

unfoldable pub trim_right : Bytes → Bytes
unfolding strip
trim_right s = reverse (strip (λ b a. is_space2 a b) (λ c b a. is_space3 a b c) (reverse s))

unfoldable pub trim_space : Bytes → Bytes
unfolding trim_left trim_right
trim_space s = trim_right (trim_left s)
