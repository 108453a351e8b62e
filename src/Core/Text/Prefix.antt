-- ===== src/Core/Text/Prefix.antt =====
-- The hexadecimal prefix. The code strips it, and `strtoul` in base 16 strips one more.
use regtable.Prelude.{ℕ, ◌≤◌, ◌≡◌, refl, arith, false, true, ◌||◌, ◌==◌}
use regtable.Prelude.{[], ◌∷◌, length}
use regtable.Core.Types.{Text}
use regtable.Core.Text.{
  Libc, isxdigit, own_prefix, strtoul, skip_space, int_base, magnitude, parse_unsigned,
}

abbrev pub AllHex : Text → Type 0
AllHex [] = Unit
AllHex (c ∷ s) = (isxdigit c ≡ true) × AllHex s

no_x : (c : ℕ) → isxdigit c ≡ true → (c == b'x' || c == b'X') ≡ false
no_x c h = ground arith

-- Hexadecimal digits have no prefix.
own_prefix_digits : (s : Text) → AllHex s → own_prefix 16 s ≡ s
unfolding own_prefix
own_prefix_digits [] h = refl
own_prefix_digits (a ∷ []) h = refl
own_prefix_digits (a ∷ b ∷ []) h = refl
own_prefix_digits (a ∷ b ∷ c ∷ s) h = rw (no_x b h.1.0) (ground arith)

own_prefix_taken :
    (c : ℕ) (s : Text) → isxdigit c ≡ true → own_prefix 16 (b'0' ∷ b'x' ∷ c ∷ s) ≡ c ∷ s
unfolding own_prefix
own_prefix_taken c s h = rw h

-- A second prefix is read over: `0x0x` and hexadecimal digits are taken like `0x` and those digits.
pub parse_unsigned_prefix :
    (c : Libc) (s : Text)
    → 1 ≤ length s
    → AllHex s
    → parse_unsigned c (b'0' ∷ b'x' ∷ b'0' ∷ b'x' ∷ s) ≡ parse_unsigned c (b'0' ∷ b'x' ∷ s)
unfolding parse_unsigned magnitude strtoul int_base skip_space
parse_unsigned_prefix c [] long h = absurd (omega arith)
parse_unsigned_prefix c (a ∷ s) long h =
    rw (own_prefix_taken a s h.0, own_prefix_digits (a ∷ s) h, h.0)
