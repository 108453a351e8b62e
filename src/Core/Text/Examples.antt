-- ===== src/Core/Text/Examples.antt =====
-- Runs of the string layer, and its theorems at concrete texts.
use regtable.Prelude.{◌^◌, ◌-◌, ◌≡◌, ◌≢◌, refl, arith, false}
use regtable.Prelude.{some, [], ◌∷◌}
use regtable.Core.Types.{reg_float, reg_i32, reg_u16, reg_err_type, EntryRef}
use regtable.Core.Raw.{pass, refuse, reg_set_raw}
use regtable.Core.Text.{Libc, parse_unsigned, parse_value, reg_raw_str, reg_set_str}
use regtable.Core.Text.Laws.{reg_set_str-reg_raw_str}
use regtable.Core.Text.Prefix.{parse_unsigned_prefix}
use regtable.Core.Examples.{table, temp, fresh}

-- Longs of 32 bits, and no floats.
abbrev pub libc : Libc
libc = record {
  ulong_max = 2 ^ 32 - 1;
  strtod = λ s. record { used = 0; is_nan = false; single = 0 };
  format_g6 = λ w. [];
  format_g9 = λ w. [];
}

abbrev offset : EntryRef
offset = record { addr = 1001; entry = record temp { type = reg_i32; min = 0; max = 0 } }

-- "010" is ten.
no_octal : parse_value libc reg_u16 (b'0' ∷ b'1' ∷ b'0' ∷ []) ≡ pass 10
unfolding parse_value
no_octal = refl

-- " +0x1F"
hex : parse_value libc reg_u16 (32 ∷ b'+' ∷ b'0' ∷ b'x' ∷ b'1' ∷ b'F' ∷ []) ≡ pass 31
unfolding parse_value
hex = refl

-- "-1" is no unsigned value, "0x-1" is none at all.
signed_one : parse_value libc reg_u16 (b'-' ∷ b'1' ∷ []) ≡ refuse reg_err_type
unfolding parse_value
signed_one = refl

sign_inside : parse_value libc reg_i32 (b'0' ∷ b'x' ∷ b'-' ∷ b'1' ∷ []) ≡ refuse reg_err_type
unfolding parse_value
sign_inside = refl

-- "-2147483648"
least :
    parse_value libc reg_i32
      (b'-' ∷ b'2' ∷ b'1' ∷ b'4' ∷ b'7' ∷ b'4' ∷ b'8' ∷ b'3' ∷ b'6' ∷ b'4' ∷ b'8' ∷ [])
    ≡ pass (2 ^ 31)
unfolding parse_value
least = refl

-- "-2"
printed : (reg_raw_str libc offset.entry 0xFFFFFFFE 12).1 ≡ b'-' ∷ b'2' ∷ []
unfolding reg_raw_str
printed = refl

not_float : reg_i32 ≢ reg_float
not_float h = cc

reg_set_str-reg_raw_str_example :
    reg_set_str libc (some table) offset (reg_raw_str libc offset.entry 0xFFFFFFFE 32).1 fresh
    ≡ reg_set_raw (some table) offset 0xFFFFFFFE fresh
reg_set_str-reg_raw_str_example =
    reg_set_str-reg_raw_str libc (some table) offset 0xFFFFFFFE 32 fresh (omega arith) not_float
      (omega arith) (omega arith)

parse_unsigned_prefix_example :
    parse_unsigned libc (b'0' ∷ b'x' ∷ b'0' ∷ b'x' ∷ b'1' ∷ b'0' ∷ [])
    ≡ parse_unsigned libc (b'0' ∷ b'x' ∷ b'1' ∷ b'0' ∷ [])
parse_unsigned_prefix_example =
    parse_unsigned_prefix libc (b'1' ∷ b'0' ∷ []) (omega arith) (refl, (refl, tt))
