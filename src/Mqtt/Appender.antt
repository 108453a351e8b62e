-- ===== src/Mqtt/Appender.antt =====
-- The bounded text appender of src/regtable_mqtt.c.
pub mod Laws
use regtable.Prelude.{
  ℕ, ◌+◌, ◌-◌, ◌^◌, Bool, true, false, ◌||◌, leb, ltb, ◌==◌, if◌then◌else◌, codes,
}
use regtable.Prelude.{Option, [], ◌∷◌, ◌++◌, length}
use regtable.Core.Types.{Text}
use regtable.Core.Float.{float_lt, isnan}
use regtable.Core.Text.{Libc}
use regtable.Core.Format.{format_x}

-- `Appender`. The text is what `buf` holds before its NUL, and `len` is its length.
pub record Appender : Type 0 where
  pub text : Text
  pub size : ℕ
  pub overflow : Bool

unfoldable pub ap_putc : Appender → ℕ → Appender
ap_putc a c =
    if ltb (length a.text + 1) a.size
    then record a { text = a.text ++ (c ∷ []) }
    else record a { overflow = true }

unfoldable pub ap_puts : Appender → Text → Appender
unfolding ap_putc
ap_puts a [] = a
ap_puts a (c ∷ s) = ap_puts (ap_putc a c) s

-- The formatted text is appended whole, or not at all. The text that is there is shorter than the
-- buffer, so the room for the formatted text and its NUL is `size - len`.
unfoldable pub ap_printf : Appender → Text → Appender
ap_printf a s =
    if leb a.size (length a.text + length s)
    then record a { overflow = true }
    else record a { text = a.text ++ s }

-- The switch of `ap_json_str`.
pub ap_json_char : Appender → ℕ → Appender
unfolding ap_putc ap_puts ap_printf codes format_x
ap_json_char a c =
    if c == b'"'
    then ap_puts a (codes "\\\"")
    else if c == b'\\'
    then ap_puts a (codes "\\\\")
    else if c == b'\n'
    then ap_puts a (codes "\\n")
    else if c == b'\r'
    then ap_puts a (codes "\\r")
    else if c == b'\t'
    then ap_puts a (codes "\\t")
    else if leb 0x20 c
    then ap_putc a c
    else ap_printf a (codes "\\u" ++ format_x 4 c)

-- Its loop.
pub ap_json_chars : Appender → Text → Appender
unfolding ap_json_char
ap_json_chars a [] = a
ap_json_chars a (c ∷ s) = ap_json_chars (ap_json_char a c) s

unfoldable pub ap_json_str : Appender → Text → Appender
unfolding ap_putc ap_json_chars
ap_json_str a s = ap_putc (ap_json_chars (ap_putc a b'"') s) b'"'

-- 3.4028235e38f is the largest single.
abbrev pub flt_max : ℕ
flt_max = 0x7f7fffff

-- Its negative.
abbrev pub flt_min : ℕ
flt_min = 0xff7fffff

unfoldable pub ap_json_float : Libc → Appender → ℕ → Appender
unfolding ap_puts ap_printf codes
ap_json_float c a f =
    if isnan f || float_lt flt_max f || float_lt f flt_min
    then ap_puts a (codes "null")
    else ap_printf a (c.format_g9 f)
