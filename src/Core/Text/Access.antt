-- ===== src/Core/Text/Access.antt =====
-- The accesses of the string layer of src/regtable_core.c: `reg_get_str` and `reg_set_str`.
use regtable.Prelude.{ℕ, ◌%◌, ◌^◌, ◌<◌, ◌==◌, ◌||◌, not, arith, ltb, if◌then◌else◌, if_cases}
use regtable.Prelude.{[], ◌∷◌, drop, some}
use regtable.Core.Types.{
  RegType, reg_u8, reg_u16, reg_u32, reg_i8, reg_i16, reg_i32, reg_float, reg_bool, reg_err_range,
  Text, Device, RegEntry, EntryRef, RegTable,
}
use regtable.Core.Float.{isinf}
use regtable.Core.Raw.{Verdict, pass, refuse}
use regtable.Core.Table.{str_eq}
use regtable.Core.Access.{Listed, IsEntry, Accesses, start, read, write}
use regtable.Core.Text.{
  Libc, is_end, first_is, on_pass, magnitude, skip_space, str_ieq, parse_unsigned, parse_signed,
  parse_float, parse_bool, parse_value, write_parsed, reg_get_str, reg_set_str,
}

-- `strtod` gives a value of 32 bits, as a `float`.
abbrev pub IsLibc : Libc → Type 0
IsLibc c = (s : Text) → (c.strtod s).single < 2 ^ 32

-- A value that passes has 32 bits.
abbrev Passes : Verdict → Type 0
Passes (pass v) = v < 2 ^ 32
Passes (refuse why) = Unit

on_pass-Passes :
    (v : Verdict) (next : ℕ → Verdict) → ((n : ℕ) → Passes (next n)) → Passes (on_pass v next)
on_pass-Passes (pass n) next h = h n
on_pass-Passes (refuse why) next h = tt

module _ (c : Libc) where
  parse_unsigned-Passes : (s : Text) → Passes (parse_unsigned c s)
  unfolding parse_unsigned
  parse_unsigned-Passes s =
      if_cases Passes (first_is (λ a. a == b'-') (skip_space s)) _ _ (λ minus. tt)
        λ plus.
          let p = skip_space s in
          on_pass-Passes (magnitude c (if first_is (λ a. a == b'+') p then drop 1 p else p))
            (λ v. if ltb 0xFFFFFFFF v then refuse reg_err_range else pass (v % 2 ^ 32))
            (λ v.
              if_cases Passes (ltb 0xFFFFFFFF v) (refuse reg_err_range) (pass (v % 2 ^ 32))
                (λ big. tt) (λ small. omega arith))

  parse_signed-Passes : (s : Text) → Passes (parse_signed c s)
  unfolding parse_signed
  parse_signed-Passes s =
      let neg = first_is (λ a. a == b'-') (skip_space s) in
      on_pass-Passes _ _ λ mag.
        if_cases Passes neg _ _
          (λ minus. if_cases Passes (ltb 0x80000000 mag) _ _ (λ big. tt) (λ small. omega arith))
          (λ plus. if_cases Passes (ltb 0x7FFFFFFF mag) _ _ (λ big. tt) (λ small. omega arith))

  parse_float-Passes : IsLibc c → (s : Text) → Passes (parse_float c s)
  unfolding parse_float
  parse_float-Passes ok s =
      let r = c.strtod s in
      if_cases Passes (r.used == 0 || not (is_end (drop r.used s))) _ _ (λ bad. tt)
        λ whole.
          if_cases Passes r.is_nan _ _ (λ bad. tt)
            λ number. if_cases Passes (isinf r.single) _ _ (λ bad. tt) (λ finite. ok s)

  parse_bool-Passes : (s : Text) → Passes (parse_bool s)
  unfolding parse_bool
  parse_bool-Passes s =
      if_cases Passes (str_ieq s (b't' ∷ b'r' ∷ b'u' ∷ b'e' ∷ []) || str_eq s (b'1' ∷ [])) _ _
        (λ on. omega arith)
        λ other.
          if_cases Passes
            (str_ieq s (b'f' ∷ b'a' ∷ b'l' ∷ b's' ∷ b'e' ∷ []) || str_eq s (b'0' ∷ [])) _ _
            (λ off. omega arith) (λ neither. tt)

  parse_value-Passes : IsLibc c → (ty : RegType) (s : Text) → Passes (parse_value c ty s)
  unfolding parse_value
  parse_value-Passes ok reg_u8 s = parse_unsigned-Passes s
  parse_value-Passes ok reg_u16 s = parse_unsigned-Passes s
  parse_value-Passes ok reg_u32 s = parse_unsigned-Passes s
  parse_value-Passes ok reg_i8 s = parse_signed-Passes s
  parse_value-Passes ok reg_i16 s = parse_signed-Passes s
  parse_value-Passes ok reg_i32 s = parse_signed-Passes s
  parse_value-Passes ok reg_float s = parse_float-Passes ok s
  parse_value-Passes ok reg_bool s = parse_bool-Passes s

  module _ (t : RegTable) (d : Device) where
    write_parsed-Accesses :
        (r : EntryRef) (v : Verdict)
        → IsEntry t.entries t.base r
        → Passes v
        → Accesses t d (write_parsed (some t) r d v).1
    write_parsed-Accesses r (pass raw) at h = write r raw start at h
    write_parsed-Accesses r (refuse why) at h = start

    pub reg_set_str-Accesses :
        (r : EntryRef) (s : Text)
        → IsLibc c
        → IsEntry t.entries t.base r
        → Accesses t d (reg_set_str c (some t) r s d).1
    unfolding reg_set_str
    reg_set_str-Accesses r s ok at =
        write_parsed-Accesses r (parse_value c r.entry.type s) at
          (parse_value-Passes ok r.entry.type s)

    pub reg_get_str-Accesses :
        (e : RegEntry) (size : ℕ) → Listed t.entries e → Accesses t d (reg_get_str c e size d).1
    unfolding reg_get_str
    reg_get_str-Accesses e size at = read e start at
