-- ===== src/Base/Trimmed.antt =====
-- Texts that `trim_space` leaves as they are.
use Prim.Native.Nat.{ℕ}
use mathlib.Core.Path.{◌≡◌, refl, sym, ap, subst, ◌∙◌}
use mathlib.Core.Bool.{Bool, true, not, ◌&&◌}
use mathlib.Core.List.{[], ◌∷◌, ◌++◌, reverse, reverse-append, reverse-reverse}
use native.Mathlib.Omega.{arith}
use lynk.Base.Tests.{ltb}
use lynk.Base.Text.{Bytes}
use lynk.Base.Lists.{All, All-append}
use lynk.Base.Space.{is_space, is_space2, is_space3, strip, trim_left, trim_right, trim_space}

-- An ASCII character that is not a space.
abbrev pub is_solid : ℕ → Bool
is_solid c = ltb c 128 && not (is_space c)

strip_left_solid :
    (a : ℕ) (s : Bytes) → is_solid a ≡ true → strip is_space2 is_space3 (a ∷ s) ≡ a ∷ s
unfolding strip
strip_left_solid a [] h = ground (arith, h)
strip_left_solid a (b ∷ []) h = ground (arith, h)
strip_left_solid a (b ∷ c ∷ s) h = ground (arith, h)

strip_right_solid :
    (a : ℕ) (s : Bytes)
    → is_solid a ≡ true
    → strip (λ b a. is_space2 a b) (λ c b a. is_space3 a b c) (a ∷ s) ≡ a ∷ s
unfolding strip
strip_right_solid a [] h = ground (arith, h)
strip_right_solid a (b ∷ []) h = ground (arith, h)
strip_right_solid a (b ∷ c ∷ s) h = ground (arith, h)

trim_right_solid : (s : Bytes) (z : ℕ) → is_solid z ≡ true → trim_right (s ++ z ∷ []) ≡ s ++ z ∷ []
unfolding trim_right
trim_right_solid s z h =
    ap (λ r. reverse (strip (λ b a. is_space2 a b) (λ c b a. is_space3 a b c) r))
      (reverse-append s (z ∷ []))
    ∙ ap reverse (strip_right_solid z (reverse s) h)
    ∙ ap reverse (sym (reverse-append s (z ∷ [])))
    ∙ reverse-reverse (s ++ z ∷ [])

-- A text between two solid characters.
pub trim_space_framed :
    (a : ℕ) (s : Bytes) (z : ℕ)
    → is_solid a ≡ true
    → is_solid z ≡ true
    → trim_space (a ∷ (s ++ z ∷ [])) ≡ a ∷ (s ++ z ∷ [])
unfolding trim_space trim_left
trim_space_framed a s z first last =
    rw (strip_left_solid a (s ++ z ∷ []) first) (trim_right_solid (a ∷ s) z last)

abbrev pub AllSolid : Bytes → Type 0
AllSolid s = All (λ c. is_solid c ≡ true) s

AllSolid-reverse : (s : Bytes) → AllSolid s → AllSolid (reverse s)
AllSolid-reverse [] h = tt
AllSolid-reverse (c ∷ s) h =
    subst AllSolid (sym (reverse-append (c ∷ []) s))
      (All-append (λ c. is_solid c ≡ true) (reverse s) (c ∷ []) (AllSolid-reverse s h.1) (h.0, tt))

strip_left_AllSolid : (s : Bytes) → AllSolid s → strip is_space2 is_space3 s ≡ s
unfolding strip
strip_left_AllSolid [] h = refl
strip_left_AllSolid (a ∷ s) h = strip_left_solid a s h.0

strip_right_AllSolid :
    (s : Bytes) → AllSolid s → strip (λ b a. is_space2 a b) (λ c b a. is_space3 a b c) s ≡ s
unfolding strip
strip_right_AllSolid [] h = refl
strip_right_AllSolid (a ∷ s) h = strip_right_solid a s h.0

-- A text with no space in it.
pub trim_space-AllSolid : (s : Bytes) → AllSolid s → trim_space s ≡ s
unfolding trim_space trim_left trim_right
trim_space-AllSolid s h =
    rw (strip_left_AllSolid s h)
      (ap reverse (strip_right_AllSolid (reverse s) (AllSolid-reverse s h)) ∙ reverse-reverse s)
