-- ===== src/Core/Text/Laws.antt =====
-- What is printed is parsed back, and what decimal and hexadecimal text means.
use regtable.Prelude.{ℕ, zero, suc, ◌-◌, ◌^◌, ◌≤◌, ◌<◌, ◌≡◌, ◌≢◌, refl, arith}
use regtable.Prelude.{Option, true, false, ap, ◌∙◌, Bool-cases, inl, inr}
use regtable.Prelude.{[], ◌∷◌, ltb, ◌==◌, if◌then◌else◌, length, take, take_all_of}
use regtable.Core.Types.{
  RegType, reg_u8, reg_u16, reg_u32, reg_i8, reg_i16, reg_i32, reg_float, reg_bool, reg_err_range,
  Text, Device, EntryRef, RegTable,
}
use regtable.Core.Memory.{InDomain}
use regtable.Core.Table.{str_eq}
use regtable.Core.Raw.{pass, refuse, reg_set_raw}
use regtable.Core.Text.{
  Libc, format_lu, format_ld, value_text, first_is, magnitude, parse_unsigned, parse_signed,
  parse_bool, str_ieq, parse_value, reg_raw_str, reg_set_str,
}
use regtable.Core.Text.Digits.{
  AllDigits, number, decimal-AllDigits, number-decimal, length-decimal, length-decimal_pos,
  magnitude_digits, skip_space_digits,
}

first_digit : (s : Text) (a : ℕ) → AllDigits s → a < b'0' → first_is (λ x. x == a) s ≡ false
first_digit [] a h small = refl
first_digit (c ∷ s) a h small = ground arith

-- Decimal digits are taken as decimal, leading zeros or not, and refused with REG_ERR_RANGE
-- beyond 32 bits.
pub parse_unsigned_digits :
    (c : Libc) (s : Text)
    → 2 ^ 32 - 1 ≤ c.ulong_max
    → AllDigits s
    → 1 ≤ length s
    → parse_unsigned c s
      ≡ (if ltb 0xFFFFFFFF (number 0 s) then refuse reg_err_range else pass (number 0 s))
unfolding parse_unsigned
parse_unsigned_digits c s wide h long =
    let mag = magnitude_digits c s h long in
    elim (Bool-cases (ltb c.ulong_max (number 0 s))) [
      | inl beyond ↦
          let big : ltb 0xFFFFFFFF (number 0 s) ≡ true = ground arith in
          rw (
            skip_space_digits s h,
            first_digit s b'-' h (omega arith),
            first_digit s b'+' h (omega arith),
            mag,
            beyond,
            big,
          )
      | inr within ↦ elim (Bool-cases (ltb 0xFFFFFFFF (number 0 s))) [
        | inl big ↦ rw (
          skip_space_digits s h,
          first_digit s b'-' h (omega arith),
          first_digit s b'+' h (omega arith),
          mag,
          within,
          big,
        )
        | inr small ↦
            rw
              (
                skip_space_digits s h,
                first_digit s b'-' h (omega arith),
                first_digit s b'+' h (omega arith),
                mag,
                within,
                small,
              )
              (ap pass (ground arith))
      ]
    ]

module _ (c : Libc) (wide : 2 ^ 32 - 1 ≤ c.ulong_max) where
  -- A printed number is read as that number.
  printed : (n : ℕ) → n < 2 ^ 32 → magnitude c (format_lu n) ≡ pass n
  printed n h =
      let is = number-decimal 10 n (omega arith) (omega arith) in
      let fits : ltb c.ulong_max (number 0 (format_lu n)) ≡ false = rw is (ground arith) in
      magnitude_digits c (format_lu n) (decimal-AllDigits 10 n)
        (length-decimal_pos 10 n (omega arith))
      ∙ rw (fits, is)

  parse_unsigned-format_lu : (n : ℕ) → n < 2 ^ 32 → parse_unsigned c (format_lu n) ≡ pass n
  parse_unsigned-format_lu n h =
      let is = number-decimal 10 n (omega arith) (omega arith) in
      let fits : ltb 0xFFFFFFFF (number 0 (format_lu n)) ≡ false = rw is (ground arith) in
      parse_unsigned_digits c (format_lu n) wide (decimal-AllDigits 10 n)
        (length-decimal_pos 10 n (omega arith))
      ∙ rw (fits, is)

  parse_signed-format_ld : (raw : ℕ) → raw < 2 ^ 32 → parse_signed c (format_ld raw) ≡ pass raw
  unfolding parse_signed format_ld
  parse_signed-format_ld raw h = elim (Bool-cases (ltb raw (2 ^ 31))) [
    | inl natural ↦
        let s = format_lu raw in
        let digits = decimal-AllDigits 10 raw in
        let small : ltb 0x7FFFFFFF raw ≡ false = ground arith in
        rw
          (
            natural,
            skip_space_digits s digits,
            first_digit s b'-' digits (omega arith),
            first_digit s b'+' digits (omega arith),
            printed raw h,
            small,
          )
          (ap pass (omega arith))
    | inr negative ↦
        let mag = 2 ^ 32 - raw in
        let small : ltb 0x80000000 mag ≡ false = ground arith in
        rw (negative, printed mag (ground arith), small) (ap pass (ground arith))
  ]

  bool_text : (raw : ℕ) → raw < 2 → parse_value c reg_bool (value_text c reg_bool raw) ≡ pass raw
  unfolding parse_value value_text parse_bool str_ieq str_eq
  bool_text zero h = refl
  bool_text (suc zero) h = refl
  bool_text (suc (suc raw)) h = absurd (omega arith)

  -- Every type but the float: what is printed is parsed back.
  pub parse_value-value_text :
      (ty : RegType) (raw : ℕ)
      → ty ≢ reg_float
      → InDomain ty raw
      → parse_value c ty (value_text c ty raw) ≡ pass raw
  unfolding parse_value value_text
  parse_value-value_text reg_u8 raw whole h = parse_unsigned-format_lu raw (omega arith)
  parse_value-value_text reg_u16 raw whole h = parse_unsigned-format_lu raw (omega arith)
  parse_value-value_text reg_u32 raw whole h = parse_unsigned-format_lu raw h
  parse_value-value_text reg_i8 raw whole h = parse_signed-format_ld raw (ground arith)
  parse_value-value_text reg_i16 raw whole h = parse_signed-format_ld raw (ground arith)
  parse_value-value_text reg_i32 raw whole h = parse_signed-format_ld raw h
  parse_value-value_text reg_float raw whole h = absurd (whole refl)
  parse_value-value_text reg_bool raw whole h = bool_text raw h

length-format_ld : (raw : ℕ) → length (format_ld raw) ≤ 11
unfolding format_ld
length-format_ld raw = ground (arith, length-decimal 10 raw, length-decimal 10 (2 ^ 32 - raw))

length-value_text :
    (c : Libc) (ty : RegType) (raw : ℕ) → ty ≢ reg_float → length (value_text c ty raw) ≤ 11
unfolding value_text format_ld
length-value_text c reg_u8 raw whole = omega (arith, length-decimal 10 raw)
length-value_text c reg_u16 raw whole = omega (arith, length-decimal 10 raw)
length-value_text c reg_u32 raw whole = omega (arith, length-decimal 10 raw)
length-value_text c reg_i8 raw whole = length-format_ld raw
length-value_text c reg_i16 raw whole = length-format_ld raw
length-value_text c reg_i32 raw whole = length-format_ld raw
length-value_text c reg_float raw whole = absurd (whole refl)
length-value_text c reg_bool raw whole = ground arith

-- A value printed into a buffer of 12 bytes or more and written back as text is written as it is:
-- `reg_set_str` does what `reg_set_raw` does with the value. This holds of each type but the
-- float, for every value of the type.
pub reg_set_str-reg_raw_str :
    (c : Libc) (t : Option RegTable) (r : EntryRef) (raw buf_size : ℕ) (d : Device)
    → 2 ^ 32 - 1 ≤ c.ulong_max
    → r.entry.type ≢ reg_float
    → InDomain r.entry.type raw
    → 12 ≤ buf_size
    → reg_set_str c t r (reg_raw_str c r.entry raw buf_size).1 d ≡ reg_set_raw t r raw d
unfolding reg_set_str reg_raw_str
reg_set_str-reg_raw_str c t r raw buf_size d wide whole h room =
    let s = value_text c r.entry.type raw in
    let uncut : take (buf_size - 1) s ≡ s =
      take_all_of s (buf_size - 1) (omega (arith, length-value_text c r.entry.type raw whole)) in
    rw (uncut, parse_value-value_text c wide r.entry.type raw whole h)
