-- ===== src/Cli/Output.antt =====
-- The output helpers of src/regtable_cli.c. Each returns the calls of `tx.write` that it makes, in
-- order, as the bytes handed over. The literals, which an AVR keeps in flash, are plain texts.
pub mod Json
use regtable.Prelude.{ℕ, ◌%◌, ◌^◌, Bool, true, false, not, ◌&&◌, ◌||◌, leb, ◌==◌}
use regtable.Prelude.{Option, none, some, List, [], ◌∷◌, ◌++◌, length, take, if◌then◌else◌, codes}
use regtable.Core.Types.{
  RegType, reg_i8, reg_i16, reg_i32, reg_float, RegPerm, RegResult, Text, Device, RegEntry,
}
use regtable.Core.Float.{isnan, isinf}
use regtable.Core.Raw.{reg_get_raw}
use regtable.Core.Text.{Libc, format_lu, format_ld, reg_get_str}
use regtable.Core.Names.{reg_type_str, reg_result_str, perm_str}
use regtable.Core.Format.{format_x}

abbrev pub Writes : Type 0
Writes = List Text

-- The bytes on the line.
unfoldable pub sent : Writes → Text
sent [] = []
sent (w ∷ ws) = w ++ sent ws

abbrev pub is_empty : Text → Bool
is_empty [] = true
is_empty (c ∷ s) = false

-- A text that is known at run time only.
unfoldable pub cli_puts : Text → Writes
cli_puts s = take (length s % 2 ^ 16) s ∷ []

-- The array `buf` of `cli_lit`.
abbrev pub lit_room : ℕ
lit_room = 24

-- The loop of `cli_lit`, with `buf` in front of it.
pub lit_from : Text → Text → Writes
lit_from [] buf = if is_empty buf then [] else buf ∷ []
lit_from (c ∷ s) buf =
    let buf' = buf ++ (c ∷ []) in
    let full = length buf' == lit_room in
    let rest = lit_from s (if full then [] else buf') in if full then buf' ∷ rest else rest

unfoldable pub cli_lit : Text → Writes
unfolding lit_from
cli_lit lit = lit_from lit []

-- The array `tmp` of `cli_print`: the formatted text is cut off at 127 bytes.
unfoldable pub cli_print : Text → Writes
cli_print s = if is_empty s then [] else take 127 s ∷ []

-- `none` where the byte needs no escape.
pub json_escape : ℕ → Option Writes
unfolding cli_lit cli_print codes format_x
json_escape c =
    if c == b'"'
    then some (cli_lit (codes "\\\""))
    else if c == b'\\'
    then some (cli_lit (codes "\\\\"))
    else if c == b'\n'
    then some (cli_lit (codes "\\n"))
    else if c == b'\r'
    then some (cli_lit (codes "\\r"))
    else if c == b'\t'
    then some (cli_lit (codes "\\t"))
    else if leb 0x20 c
    then none
    else some (cli_print (codes "\\u" ++ format_x 4 c))

abbrev pub or_none : Option Writes → Writes
or_none none = []
or_none (some ws) = ws

-- The run of plain bytes, if there is one.
abbrev pub flush : Text → Writes
flush run = if is_empty run then [] else take (length run % 2 ^ 16) run ∷ []

-- The loop of `json_str`, with the run before it.
pub str_from : Text → Text → Writes
unfolding json_escape
str_from [] run = flush run
str_from (c ∷ s) run =
    let plain = leb 0x20 c && not (c == b'"') && not (c == b'\\') in
    let rest = str_from s (if plain then run ++ (c ∷ []) else []) in
    if plain then rest else flush run ++ or_none (json_escape c) ++ rest

unfoldable pub json_str : Text → Writes
unfolding str_from cli_lit codes
json_str s = cli_lit (codes "\"") ++ str_from s [] ++ cli_lit (codes "\"")

abbrev pub escape_or : ℕ → Option Writes → Writes
escape_or c none = (c ∷ []) ∷ []
escape_or c (some ws) = ws

-- The loop of `json_lit`.
pub lit_escaped : Text → Writes
unfolding json_escape
lit_escaped [] = []
lit_escaped (c ∷ s) = escape_or c (json_escape c) ++ lit_escaped s

unfoldable pub json_lit : Text → Writes
unfolding lit_escaped cli_lit codes
json_lit lit = cli_lit (codes "\"") ++ lit_escaped lit ++ cli_lit (codes "\"")

pub json_float : Libc → ℕ → Writes
unfolding cli_lit cli_print codes
json_float c f = if isnan f || isinf f then cli_lit (codes "null") else cli_print (c.format_g9 f)

abbrev pub is_float : RegType → Bool
is_float reg_float = true
is_float _ = false

unfoldable pub json_value : Libc → RegEntry → Device → Writes × Device
unfolding json_float cli_puts reg_get_raw reg_get_str
json_value c e d =
    if is_float e.type
    then (let (raw, d') = reg_get_raw e d in (json_float c raw, d'))
    else (let ((n, text), d') = reg_get_str c e 32 d in (cli_puts text, d'))

pub json_perm : RegPerm → Writes
unfolding json_lit perm_str
json_perm p = json_lit (perm_str p)

-- The limits, in the domain of the type.
pub json_limits : Libc → RegType → ℕ → ℕ → Writes
unfolding cli_lit cli_print json_float codes
json_limits c reg_float min max =
    cli_lit (codes ",\"min\":")
    ++ json_float c min
    ++ cli_lit (codes ",\"max\":")
    ++ json_float c max
json_limits c reg_i8 min max =
    cli_print (codes ",\"min\":" ++ format_ld min ++ codes ",\"max\":" ++ format_ld max)
json_limits c reg_i16 min max =
    cli_print (codes ",\"min\":" ++ format_ld min ++ codes ",\"max\":" ++ format_ld max)
json_limits c reg_i32 min max =
    cli_print (codes ",\"min\":" ++ format_ld min ++ codes ",\"max\":" ++ format_ld max)
json_limits c _ min max =
    cli_print (codes ",\"min\":" ++ format_lu min ++ codes ",\"max\":" ++ format_lu max)

abbrev pub json_desc : Option Text → Writes
json_desc none = []
json_desc (some desc) = cli_lit (codes ",\"desc\":") ++ json_str desc

unfoldable pub json_entry : Libc → RegEntry → Device → Writes × Device
unfolding cli_lit cli_print json_str json_perm json_value json_limits reg_type_str codes
json_entry c e d =
    let (value, d') = json_value c e d in
    (
      cli_lit (codes "{\"name\":")
          ++ json_str e.name
          ++ cli_lit (codes ",\"type\":")
          ++ json_str (reg_type_str e.type)
          ++ cli_lit (codes ",\"perm\":")
          ++ json_perm e.perm
          ++ cli_lit (codes ",\"value\":")
          ++ value
          ++ (if not (e.min == 0 && e.max == 0) then json_limits c e.type e.min e.max else [])
          ++ (if e.modbus_addr == 0
              then []
              else cli_print (codes ",\"modbus\":" ++ format_lu e.modbus_addr))
          ++ json_desc e.description
          ++ cli_lit (codes "}"),
      d',
    )

pub json_error_lit : Text → Writes
unfolding cli_lit json_lit codes
json_error_lit lit = cli_lit (codes "{\"error\":") ++ json_lit lit ++ cli_lit (codes "}\r\n")

unfoldable pub json_error : RegResult → Writes
unfolding cli_lit json_str reg_result_str codes
json_error r =
    cli_lit (codes "{\"error\":") ++ json_str (reg_result_str r) ++ cli_lit (codes "}\r\n")

unfoldable pub cli_error : Text → Bool → Writes
unfolding cli_lit json_error_lit codes
cli_error lit json = if json then json_error_lit lit else cli_lit lit ++ cli_lit (codes "\r\n")
