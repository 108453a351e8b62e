-- ===== src/Core/Text.antt =====
-- The string layer of src/regtable_core.c: how a value is printed (`reg_raw_str`, `reg_get_str`)
-- and how a text is parsed and written (`reg_set_str`).
pub mod Access
pub mod Digits
pub mod Laws
pub mod Prefix
pub mod Examples
use regtable.Prelude.{
  ℕ, zero, suc, ◌+◌, ◌-◌, ◌*◌, ◌/◌, ◌%◌, ◌^◌, Bool, true, false, not, ◌&&◌, ◌||◌,
}
use regtable.Prelude.{Option, List, [], ◌∷◌, ◌++◌, ltb, leb, ◌==◌, if◌then◌else◌}
use regtable.Prelude.{length, take, drop}
use regtable.Core.Types.{
  RegType, reg_u8, reg_u16, reg_u32, reg_i8, reg_i16, reg_i32, reg_float, reg_bool, RegResult,
  reg_err_type, reg_err_range, Text, Device, RegEntry, EntryRef, RegTable,
}
use regtable.Core.Float.{isinf}
use regtable.Core.Table.{str_eq}
use regtable.Core.Raw.{Verdict, pass, refuse, reg_set_raw, reg_get_raw}

-- What `strtod` leaves: the number of bytes up to `end`, whether the value is NaN, and the bits of
-- the value converted to `float`.
pub record Strtod : Type 0 where
  pub used : ℕ
  pub is_nan : Bool
  pub single : ℕ

-- What the code takes from the C library beyond the text of integers: the greatest `unsigned
-- long`, the parser of floats, and the formats `%.6g` and `%.9g` of a single given by its bits.
pub record Libc : Type 0 where
  pub ulong_max : ℕ
  pub strtod : Text → Strtod
  pub format_g6 : ℕ → Text
  pub format_g9 : ℕ → Text

-- The decimal digits of a number below `10 ^ fuel`.
unfoldable pub decimal : ℕ → ℕ → Text
decimal zero n = []
decimal (suc fuel) n =
    let rest = decimal fuel (n / 10) in
    if ltb n 10 then (b'0' + n) ∷ [] else rest ++ ((b'0' + n % 10) ∷ [])

-- `%lu`: 32 bits are ten digits at most.
abbrev pub format_lu : ℕ → Text
format_lu n = decimal 10 n

-- `%ld` of `(int32_t)raw`
pub format_ld : ℕ → Text
unfolding decimal
format_ld raw = if ltb raw (2 ^ 31) then format_lu raw else b'-' ∷ format_lu (2 ^ 32 - raw)

-- `snprintf`: the length of the whole text, and what the buffer holds of it.
abbrev pub snprintf : ℕ → Text → ℕ × Text
snprintf size s = (length s, take (size - 1) s)

-- The format of each type.
pub value_text : Libc → RegType → ℕ → Text
unfolding decimal format_ld
value_text c reg_u8 raw = format_lu raw
value_text c reg_u16 raw = format_lu raw
value_text c reg_u32 raw = format_lu raw
value_text c reg_i8 raw = format_ld raw
value_text c reg_i16 raw = format_ld raw
value_text c reg_i32 raw = format_ld raw
value_text c reg_float raw = c.format_g6 raw
value_text c reg_bool raw =
    if raw == 0 then b'f' ∷ b'a' ∷ b'l' ∷ b's' ∷ b'e' ∷ [] else b't' ∷ b'r' ∷ b'u' ∷ b'e' ∷ []

unfoldable pub reg_raw_str : Libc → RegEntry → ℕ → ℕ → ℕ × Text
unfolding value_text
reg_raw_str c e raw buf_size = snprintf buf_size (value_text c e.type raw)

unfoldable pub reg_get_str : Libc → RegEntry → ℕ → Device → (ℕ × Text) × Device
unfolding reg_raw_str
reg_get_str c e buf_size d = let (raw, d') = reg_get_raw e d in (reg_raw_str c e raw buf_size, d')

-- `isspace`, in the C locale
abbrev pub isspace : ℕ → Bool
isspace c = c == 32 || leb 9 c && leb c 13

abbrev pub tolower : ℕ → ℕ
tolower c = if leb b'A' c && leb c b'Z' then c + 32 else c

-- The value of a digit, 36 or more if it is none.
abbrev pub digit_value : ℕ → ℕ
digit_value c =
    if leb b'0' c && leb c b'9'
    then c - b'0'
    else if leb b'a' (tolower c) && leb (tolower c) b'z'
    then tolower c - b'a' + 10
    else 36

abbrev pub isxdigit : ℕ → Bool
isxdigit c = ltb (digit_value c) 16

-- A test of the first byte; the NUL fails each of these tests.
abbrev pub first_is : (ℕ → Bool) → Text → Bool
first_is p [] = false
first_is p (c ∷ s) = p c

pub str_ieq : Text → Text → Bool
str_ieq [] [] = true
str_ieq [] (b ∷ bs) = false
str_ieq (a ∷ as') [] = false
str_ieq (a ∷ as') (b ∷ bs) = tolower a == tolower b && str_ieq as' bs

-- The base, and the digits.
pub int_base : Text → ℕ × Text
int_base [] = (10, [])
int_base (a ∷ []) = (10, a ∷ [])
int_base (a ∷ b ∷ s) = if a == b'0' && (b == b'x' || b == b'X') then (16, s) else (10, a ∷ b ∷ s)

pub skip_space : Text → Text
skip_space [] = []
skip_space (c ∷ s) = let rest = skip_space s in if isspace c then rest else c ∷ s

-- The digits of the base, added to `v`, and where they end.
pub scan : ℕ → Text → ℕ → ℕ × Text
scan base [] v = (v, [])
scan base (c ∷ s) v =
    let rest = scan base s (v * base + digit_value c) in
    if ltb (digit_value c) base then rest else (v, c ∷ s)

-- In base 16 `strtoul` takes a prefix of its own, if a digit follows.
pub own_prefix : ℕ → Text → Text
own_prefix base (a ∷ b ∷ c ∷ s) =
    if base == 16 && a == b'0' && (b == b'x' || b == b'X') && isxdigit c
    then c ∷ s
    else a ∷ b ∷ c ∷ s
own_prefix base s = s

-- `strtoul` of a text that begins with neither space nor sign: `errno == ERANGE`, the value, and
-- the text from `end` on.
pub strtoul : Libc → ℕ → Text → Bool × ℕ × Text
unfolding scan own_prefix
strtoul c base s =
    let (v, end) = scan base (own_prefix base s) 0 in
    if ltb c.ulong_max v then (true, c.ulong_max, end) else (false, v, end)

abbrev pub is_end : Text → Bool
is_end [] = true
is_end (c ∷ s) = false

-- The digits behind the sign, up to the tests of the magnitude.
pub magnitude : Libc → Text → Verdict
unfolding int_base strtoul
magnitude c p =
    let (base, digits) = int_base p in
    let (erange, v, end) = strtoul c base digits in
    if not (first_is isxdigit digits)
    then refuse reg_err_type
    else if not (is_end end)
    then refuse reg_err_type
    else if erange
    then refuse reg_err_range
    else pass v

-- The rest of a parser, for a magnitude.
abbrev pub on_pass : Verdict → (ℕ → Verdict) → Verdict
on_pass (pass v) next = next v
on_pass (refuse why) next = refuse why

pub parse_unsigned : Libc → Text → Verdict
unfolding skip_space magnitude
parse_unsigned c s =
    let p = skip_space s in
    if first_is (λ a. a == b'-') p
    then refuse reg_err_type
    else on_pass (magnitude c (if first_is (λ a. a == b'+') p then drop 1 p else p))
        (λ v. if ltb 0xFFFFFFFF v then refuse reg_err_range else pass (v % 2 ^ 32))

pub parse_signed : Libc → Text → Verdict
unfolding skip_space magnitude
parse_signed c s =
    let p = skip_space s in
    let neg = first_is (λ a. a == b'-') p in
    on_pass (magnitude c (if neg || first_is (λ a. a == b'+') p then drop 1 p else p)) (λ mag.
      if neg
      then (if ltb 0x80000000 mag
          then refuse reg_err_range
          else pass ((2 ^ 32 - mag % 2 ^ 32) % 2 ^ 32))
      else if ltb 0x7FFFFFFF mag
      then refuse reg_err_range
      else pass (mag % 2 ^ 32))

pub parse_float : Libc → Text → Verdict
parse_float c s =
    let r = c.strtod s in
    if r.used == 0 || not (is_end (drop r.used s))
    then refuse reg_err_type
    else if r.is_nan
    then refuse reg_err_type
    else if isinf r.single
    then refuse reg_err_range
    else pass r.single

pub parse_bool : Text → Verdict
unfolding str_ieq
parse_bool s =
    if str_ieq s (b't' ∷ b'r' ∷ b'u' ∷ b'e' ∷ []) || str_eq s (b'1' ∷ [])
    then pass 1
    else if str_ieq s (b'f' ∷ b'a' ∷ b'l' ∷ b's' ∷ b'e' ∷ []) || str_eq s (b'0' ∷ [])
    then pass 0
    else refuse reg_err_type

-- The switch of `reg_set_str`.
pub parse_value : Libc → RegType → Text → Verdict
unfolding parse_unsigned parse_signed parse_float parse_bool
parse_value c reg_bool s = parse_bool s
parse_value c reg_u8 s = parse_unsigned c s
parse_value c reg_u16 s = parse_unsigned c s
parse_value c reg_u32 s = parse_unsigned c s
parse_value c reg_i8 s = parse_signed c s
parse_value c reg_i16 s = parse_signed c s
parse_value c reg_i32 s = parse_signed c s
parse_value c reg_float s = parse_float c s

abbrev pub write_parsed : Option RegTable → EntryRef → Device → Verdict → RegResult × Device
write_parsed t r d (pass raw) = reg_set_raw t r raw d
write_parsed t r d (refuse why) = (why, d)

unfoldable pub reg_set_str : Libc → Option RegTable → EntryRef → Text → Device → RegResult × Device
unfolding parse_value
reg_set_str c t r s d = write_parsed t r d (parse_value c r.entry.type s)
