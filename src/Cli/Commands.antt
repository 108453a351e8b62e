-- ===== src/Cli/Commands.antt =====
-- The commands of src/regtable_cli.c. Each takes the fields of the session that it reads, and
-- returns what it writes and, where it reads or writes a register, the device.
use regtable.Prelude.{ℕ, Bool, true, false, not, ◌&&◌, ◌==◌, if◌then◌else◌}
use regtable.Prelude.{Option, none, some, List, [], ◌∷◌, ◌++◌, codes}
use regtable.Core.Types.{
  RegType, reg_i8, reg_i16, reg_i32, reg_float, RegResult, reg_ok, reg_err_not_found, Text, Device,
  RegEntry, EntryRef, RegTable,
}
use regtable.Core.Table.{reg_find}
use regtable.Core.Text.{Libc, format_lu, format_ld, reg_get_str, reg_set_str}
use regtable.Core.Names.{reg_type_str, reg_result_str, perm_str}
use regtable.Core.Format.{format_upper_x, format_left}
use regtable.Cli.Output.{Writes, cli_puts, cli_lit, cli_print, json_value, json_entry, json_error}

-- The loop of `list --json`; a comma stands before each entry but the first.
unfoldable pub list_json : Libc → Bool → List RegEntry → Device → Writes × Device
unfolding cli_lit json_entry codes
list_json c first [] d = ([], d)
list_json c first (e ∷ es) d =
    let (object, d') = json_entry c e d in
    let (rest, d'') = list_json c false es d' in
    ((if first then [] else cli_lit (codes ",")) ++ object ++ rest, d'')

-- The loop of `list`.
unfoldable pub list_rows : Libc → List RegEntry → Device → Writes × Device
unfolding cli_print reg_get_str reg_type_str perm_str codes
list_rows c [] d = ([], d)
list_rows c (e ∷ es) d =
    let ((n, value), d') = reg_get_str c e 32 d in
    let (rest, d'') = list_rows c es d' in
    (
      cli_print (
            format_left 16 e.name
            ++ format_left 7 (reg_type_str e.type)
            ++ format_left 6 (perm_str e.perm)
            ++ value
            ++ codes "\r\n")
          ++ rest,
      d'',
    )

unfoldable pub cmd_list : Libc → RegTable → Bool → Device → Writes × Device
unfolding list_json list_rows cli_lit codes
cmd_list c t json d =
    if json
    then (let (objects, d') = list_json c true t.entries d in
        (cli_lit (codes "[") ++ objects ++ cli_lit (codes "]\r\n"), d'))
    else (let (rows, d') = list_rows c t.entries d in
        (
          cli_lit (codes "NAME            TYPE   PERM  VALUE\r\n")
              ++ cli_lit (codes "--------------------------------------------\r\n")
              ++ rows,
          d',
        ))

abbrev pub status_json : RegResult → Writes
status_json reg_ok = cli_lit (codes "{\"result\":\"OK\"}\r\n")
status_json r = json_error r

unfoldable pub cli_result : RegResult → Bool → Writes
unfolding cli_puts cli_lit json_error reg_result_str codes
cli_result r json =
    if json then status_json r else cli_puts (reg_result_str r) ++ cli_lit (codes "\r\n")

unfoldable pub get_entry : Libc → Bool → RegEntry → Device → Writes × Device
unfolding json_value cli_puts cli_lit reg_get_str codes
get_entry c json e d =
    if json
    then (let (value, d') = json_value c e d in
        (cli_lit (codes "{\"value\":") ++ value ++ cli_lit (codes "}\r\n"), d'))
    else (let ((n, text), d') = reg_get_str c e 32 d in
        (cli_puts text ++ cli_lit (codes "\r\n"), d'))

-- A name that no entry has, or what is done with the entry.
abbrev pub on_entry :
    Bool → Device → (EntryRef → Writes × Device) → Option EntryRef → Writes × Device
on_entry json d next none = (cli_result reg_err_not_found json, d)
on_entry json d next (some r) = next r

unfoldable pub cmd_get : Libc → RegTable → Text → Bool → Device → Writes × Device
unfolding get_entry cli_result reg_find
cmd_get c t name json d = on_entry json d (λ r. get_entry c json r.entry d) (reg_find t name)

abbrev pub report : Bool → RegResult × Device → Writes × Device
report json (res, d) = (cli_result res json, d)

unfoldable pub cmd_set : Libc → RegTable → Text → Text → Bool → Device → Writes × Device
unfolding cli_result reg_find reg_set_str
cmd_set c t name value json d =
    on_entry json d (λ r. report json (reg_set_str c (some t) r value d)) (reg_find t name)

-- The line `range:` of `info`.
pub info_range : Libc → RegType → ℕ → ℕ → Writes
unfolding cli_print codes
info_range c reg_float min max =
    cli_print (codes "range:  " ++ c.format_g6 min ++ codes ".." ++ c.format_g6 max ++ codes "\r\n")
info_range c reg_i8 min max =
    cli_print (codes "range:  " ++ format_ld min ++ codes ".." ++ format_ld max ++ codes "\r\n")
info_range c reg_i16 min max =
    cli_print (codes "range:  " ++ format_ld min ++ codes ".." ++ format_ld max ++ codes "\r\n")
info_range c reg_i32 min max =
    cli_print (codes "range:  " ++ format_ld min ++ codes ".." ++ format_ld max ++ codes "\r\n")
info_range c _ min max =
    cli_print (codes "range:  " ++ format_lu min ++ codes ".." ++ format_lu max ++ codes "\r\n")

abbrev pub info_desc : Option Text → Writes
info_desc none = []
info_desc (some desc) = cli_lit (codes "desc:   ") ++ cli_puts desc ++ cli_lit (codes "\r\n")

pub info_text : Libc → RegEntry → Text → Writes
unfolding cli_print cli_lit cli_puts info_range reg_type_str perm_str format_upper_x codes
info_text c e value =
    cli_print (codes "name:   " ++ e.name ++ codes "\r\n")
    ++ cli_print (codes "type:   " ++ reg_type_str e.type ++ codes "\r\n")
    ++ cli_print (codes "perm:   " ++ perm_str e.perm ++ codes "\r\n")
    ++ cli_print (codes "value:  " ++ value ++ codes "\r\n")
    ++ (if not (e.min == 0 && e.max == 0) then info_range c e.type e.min e.max else [])
    ++ (if e.modbus_addr == 0
        then []
        else cli_print (codes "modbus: 0x" ++ format_upper_x 4 e.modbus_addr ++ codes "\r\n"))
    ++ info_desc e.description

unfoldable pub info_entry : Libc → Bool → RegEntry → Device → Writes × Device
unfolding json_entry info_text cli_lit reg_get_str codes
info_entry c json e d =
    if json
    then (let (object, d') = json_entry c e d in (object ++ cli_lit (codes "\r\n"), d'))
    else (let ((n, value), d') = reg_get_str c e 32 d in (info_text c e value, d'))

unfoldable pub cmd_info : Libc → RegTable → Text → Bool → Device → Writes × Device
unfolding info_entry cli_result reg_find
cmd_info c t name json d = on_entry json d (λ r. info_entry c json r.entry d) (reg_find t name)
