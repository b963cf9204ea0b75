-- ===== src/Base/Runes.antt =====
-- `utf8.RuneCountInString`: a malformed byte counts as one rune.
use mathlib.Core.Bool.{Bool, false, ◌&&◌}
use mathlib.Core.List.{[], ◌∷◌}
use Prim.Native.Nat.{ℕ, zero, suc, ◌+◌}
use lynk.Base.Tests.{leb, ◌==◌, if◌then◌else◌}
use lynk.Base.Text.{Bytes}

abbrev between : ℕ → ℕ → ℕ → Bool
between low high c = leb low c && leb c high

abbrev follows : Bytes → Bool
follows [] = false
follows (c ∷ s) = between 0x80 0xBF c

abbrev follow_two : Bytes → Bool
follow_two [] = false
follow_two (c ∷ s) = between 0x80 0xBF c && follows s

abbrev head_in : ℕ → ℕ → Bytes → Bool
head_in low high [] = false
head_in low high (c ∷ s) = between low high c

abbrev rest_of : Bytes → Bytes
rest_of [] = []
rest_of (c ∷ s) = s

-- The lowest and the highest second byte of a three-byte rune.
abbrev second3 : ℕ → Bytes → Bool
second3 a s =
    if a == 0xE0
    then head_in 0xA0 0xBF s
    else if a == 0xED
    then head_in 0x80 0x9F s
    else head_in 0x80 0xBF s

abbrev second4 : ℕ → Bytes → Bool
second4 a s =
    if a == 0xF0
    then head_in 0x90 0xBF s
    else if a == 0xF4
    then head_in 0x80 0x8F s
    else head_in 0x80 0xBF s

-- How many bytes follow the first one in its rune.
abbrev trailing : ℕ → Bytes → ℕ
trailing a s =
    if between 0xC2 0xDF a && follows s
    then 1
    else if between 0xE0 0xEF a && second3 a s && follows (rest_of s)
    then 2
    else if between 0xF0 0xF4 a && second4 a s && follow_two (rest_of s)
    then 3
    else 0

-- With so many bytes still to pass over.
unfoldable pub runes_from : ℕ → Bytes → ℕ
runes_from n [] = 0
runes_from (suc n) (c ∷ s) = runes_from n s
runes_from zero (c ∷ s) = 1 + runes_from (trailing c s) s

unfoldable pub rune_count : Bytes → ℕ
unfolding runes_from
rune_count s = runes_from 0 s
