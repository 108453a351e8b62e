-- ===== src/Core/Float.antt =====
-- An IEEE-754 single by its bit pattern, as src/regtable_core.c moves it with `memcpy`: the tests
-- `isnan` and `isinf`, and the comparison `<`.
use regtable.Prelude.{ℕ, zero, suc, ◌/◌, ◌%◌, ◌^◌, Bool, false, not, ◌&&◌, ◌||◌}
use regtable.Prelude.{ltb, ◌==◌, if◌then◌else◌}
use regtable.Prelude.Int.{ℤ, pos, negsuc, ltb_ℤ}

abbrev pub exponent : ℕ → ℕ
exponent w = w / 2 ^ 23 % 2 ^ 8

abbrev pub mantissa : ℕ → ℕ
mantissa w = w % 2 ^ 23

unfoldable pub isnan : ℕ → Bool
isnan w = exponent w == 255 && not (mantissa w == 0)

unfoldable pub isinf : ℕ → Bool
isinf w = exponent w == 255 && mantissa w == 0

abbrev pub negate : ℕ → ℤ
negate zero = pos 0
negate (suc n) = negsuc n

-- Patterns of the same sign are ordered as their lower 31 bits; the two zeros are equal.
unfoldable pub rank : ℕ → ℤ
rank w = if ltb w (2 ^ 31) then pos w else negate (w % 2 ^ 31)

-- `a < b`: false if one of them is no number.
unfoldable pub float_lt : ℕ → ℕ → Bool
float_lt a b = if isnan a || isnan b then false else ltb_ℤ (rank a) (rank b)
