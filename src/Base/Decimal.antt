-- ===== src/Base/Decimal.antt =====
-- `strconv.FormatInt(n, 10)` of a number that is not negative, and that it can be read back.
use mathlib.Core.Path.{◌≡◌, refl, ap, sym, ◌∙◌}
use mathlib.Core.List.{[], ◌∷◌, ◌++◌}
use Prim.Native.Nat.{ℕ, zero, suc, ◌+◌, ◌*◌, ◌/◌, ◌%◌, ◌-◌, ◌^◌, ◌<◌, ◌≤◌}
use mathlib.Core.Bool.{Bool, true, false, not, ◌&&◌}
use lynk.Base.Lists.{length, length-append, All, All-append}
use native.Mathlib.Omega.{arith}
use lynk.Base.Tests.{ltb, if◌then◌else◌}
use lynk.Base.Text.{Bytes}

-- One digit for each unit of the fuel at most; `n + 1` is always enough for `n`.
unfoldable pub digits : ℕ → ℕ → Bytes
digits zero n = []
digits (suc fuel) n =
    let rest = digits fuel (n / 10) in
    if ltb n 10 then (b'0' + n) ∷ [] else rest ++ (b'0' + n % 10) ∷ []

unfoldable pub format_int : ℕ → Bytes
unfolding digits
format_int n = digits (suc n) n

-- What a text of decimal digits stands for.
unfoldable pub parse_from : ℕ → Bytes → ℕ
parse_from acc [] = acc
parse_from acc (c ∷ s) = parse_from (acc * 10 + (c - b'0')) s

parse_from-append :
    (acc : ℕ) (s : Bytes) (c : ℕ)
    → parse_from acc (s ++ c ∷ []) ≡ parse_from acc s * 10 + (c - b'0')
unfolding parse_from
parse_from-append acc [] c = refl
parse_from-append acc (d ∷ s) c = parse_from-append (acc * 10 + (d - b'0')) s c

parse_from-one : (n : ℕ) → parse_from 0 ((b'0' + n) ∷ []) ≡ n
unfolding parse_from
parse_from-one n = omega arith

parse-digits : (fuel n : ℕ) → n < fuel → parse_from 0 (digits fuel n) ≡ n
unfolding digits
parse-digits zero n h = omega (arith, h)
parse-digits (suc fuel) n h = ground (
  arith,
  parse_from-one n,
  parse-digits fuel (n / 10),
  parse_from-append 0 (digits fuel (n / 10)) (b'0' + n % 10),
)

pub parse-format_int : (n : ℕ) → parse_from 0 (format_int n) ≡ n
unfolding format_int
parse-format_int n = parse-digits (suc n) n (omega arith)

pub format_int-injective : (m n : ℕ) → format_int m ≡ format_int n → m ≡ n
format_int-injective m n h = sym (parse-format_int m) ∙ ap (parse_from 0) h ∙ parse-format_int n

length-digits : (fuel n places : ℕ) → n < 10 ^ suc places → length (digits fuel n) ≤ suc places
unfolding digits
length-digits zero n places h = omega arith
length-digits (suc fuel) n zero h = ground arith
length-digits (suc fuel) n (suc places) h = ground (
  arith,
  length-append (digits fuel (n / 10)) ((b'0' + n % 10) ∷ []),
  length-digits fuel (n / 10) places,
)

pub length-format_int : (n places : ℕ) → n < 10 ^ suc places → length (format_int n) ≤ suc places
unfolding format_int
length-format_int n places h = length-digits (suc n) n places h

-- A decimal digit.
abbrev pub is_decimal : ℕ → Bool
is_decimal c = not (ltb c b'0') && ltb c (b'0' + 10)

abbrev pub AllDecimal : Bytes → Type 0
AllDecimal s = All (λ c. is_decimal c ≡ true) s

either-AllDecimal :
    (s t : Bytes) (b : Bool)
    → (b ≡ true → AllDecimal s)
    → AllDecimal t
    → AllDecimal (if b then s else t)
either-AllDecimal s t true hs ht = hs refl
either-AllDecimal s t false hs ht = ht

digits-AllDecimal : (fuel n : ℕ) → AllDecimal (digits fuel n)
unfolding digits
digits-AllDecimal zero n = tt
digits-AllDecimal (suc fuel) n =
    either-AllDecimal _ _ (ltb n 10) (λ small. (ground arith, tt))
      (All-append _ (digits fuel (n / 10)) _ (digits-AllDecimal fuel (n / 10)) (ground arith, tt))

pub format_int-AllDecimal : (n : ℕ) → AllDecimal (format_int n)
unfolding format_int
format_int-AllDecimal n = digits-AllDecimal (suc n) n
