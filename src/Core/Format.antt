-- ===== src/Core/Format.antt =====
-- The formats of the C library that the adapters use beside those of Core/Text.
use regtable.Prelude.{ℕ, zero, suc, ◌+◌, ◌-◌, ◌/◌, ◌%◌, ◌≡◌, refl, arith, ltb, if◌then◌else◌}
use regtable.Prelude.{[], ◌∷◌, ◌++◌, Option, length, replicate, length-append}
use regtable.Core.Types.{Text}

-- REGTABLE_VERSION is the text "0.1.0".
abbrev pub regtable_version : Text
regtable_version = b'0' ∷ b'.' ∷ b'1' ∷ b'.' ∷ b'0' ∷ []

-- What the compiler puts into the program: `__DATE__ " " __TIME__`, and `__VERSION__`, `none` where
-- it is not defined.
pub record Build : Type 0 where
  pub built : Text
  pub compiler : Option Text

-- A hexadecimal digit, with the letter that stands for ten.
abbrev pub hex_digit : ℕ → ℕ → ℕ
hex_digit ten v = if ltb v 10 then b'0' + v else ten + (v - 10)

-- The lowest `width` digits; the callers' numbers have no more.
pub hexadecimal : ℕ → ℕ → ℕ → Text
hexadecimal ten zero n = []
hexadecimal ten (suc width) n = hexadecimal ten width (n / 16) ++ (hex_digit ten (n % 16) ∷ [])

-- `%04x` and `%08lx`, `%04X`
unfoldable pub format_x : ℕ → ℕ → Text
unfolding hexadecimal
format_x width n = hexadecimal b'a' width n

unfoldable pub format_upper_x : ℕ → ℕ → Text
unfolding hexadecimal
format_upper_x width n = hexadecimal b'A' width n

-- `%-16s` and its like
abbrev pub format_left : ℕ → Text → Text
format_left width s = s ++ replicate (width - length s) 32

length-hexadecimal : (ten width n : ℕ) → length (hexadecimal ten width n) ≡ width
unfolding hexadecimal
length-hexadecimal ten zero n = refl
length-hexadecimal ten (suc width) n = omega (
  arith,
  length-hexadecimal ten width (n / 16),
  length-append (hexadecimal ten width (n / 16)) (hex_digit ten (n % 16) ∷ []),
)

pub length-format_x : (width n : ℕ) → length (format_x width n) ≡ width
unfolding format_x
length-format_x width n = length-hexadecimal b'a' width n
