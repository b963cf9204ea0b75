-- ===== src/Platform/Secure/Codes.antt =====
-- One-time codes are as long as asked, and decimal (secure.go).
use lynk.Base.{
  ℕ, zero, suc, ◌-◌, ◌^◌, ◌<◌, ◌≡◌, refl, arith, Bytes, ◌++◌, some, length, length-append,
  length-format_int, AllDecimal, format_int-AllDecimal, All-append, format_int, parse_from,
  parse-format_int, ◌∙◌, ◌==◌, false,
}
use lynk.Platform.Secure.{replicate, numeric_code}

length-replicate : (n c : ℕ) → length (replicate n c) ≡ n
length-replicate zero c = refl
length-replicate (suc n) c = omega (arith, length-replicate n c)

zeros-AllDecimal : (n : ℕ) → AllDecimal (replicate n b'0')
zeros-AllDecimal zero = tt
zeros-AllDecimal (suc n) = (refl, zeros-AllDecimal n)

abbrev padded : ℕ → ℕ → Bytes
padded places drawn = replicate (places - length (format_int drawn)) b'0' ++ format_int drawn

length-padded :
    (places drawn : ℕ) → drawn < 10 ^ suc places → length (padded (suc places) drawn) ≡ suc places
length-padded places drawn h = omega (
  arith,
  length-append (replicate (suc places - length (format_int drawn)) b'0') (format_int drawn),
  length-replicate (suc places - length (format_int drawn)) b'0',
  length-format_int drawn places h,
)

parse-zeros : (n : ℕ) (s : Bytes) → parse_from 0 (replicate n b'0' ++ s) ≡ parse_from 0 s
unfolding parse_from
parse-zeros zero s = refl
parse-zeros (suc n) s = parse-zeros n s

suc_zero : (n : ℕ) → (suc n == 0) ≡ false
suc_zero n = ground arith

-- A code of a positive number of digits, for a number drawn below ten to that power: it exists, it has
-- exactly that many characters, all of them are decimal digits, and read as a number it is the one
-- that was drawn.
pub numeric_code-Padded :
    (places drawn : ℕ)
    → drawn < 10 ^ suc places
    → (code : Bytes) × (numeric_code (suc places) drawn ≡ some code)
      × (length code ≡ suc places)
      × AllDecimal code
      × (parse_from 0 code ≡ drawn)
unfolding numeric_code
numeric_code-Padded places drawn h = (
  padded (suc places) drawn,
  rw (suc_zero places) refl,
  length-padded places drawn h,
  All-append _ (replicate (suc places - length (format_int drawn)) b'0') (format_int drawn)
      (zeros-AllDecimal _) (format_int-AllDecimal drawn),
  parse-zeros (suc places - length (format_int drawn)) (format_int drawn) ∙ parse-format_int drawn,
)
