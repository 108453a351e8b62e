-- ===== src/Cli/Process/Access.antt =====
-- The accesses of the commands of src/regtable_cli.c, and of `cli_process` above them.
use regtable.Prelude.{Bool, true, false, not, ◌&&◌, ◌==◌, if_cases}
use regtable.Prelude.{Option, none, some, List, [], ◌∷◌, length, get_or}
use regtable.Core.Types.{Text, Device, RegEntry, EntryRef, RegTable}
use regtable.Core.Table.{reg_find}
use regtable.Core.Access.{
  Listed, AllListed, AllListed-self, IsEntry, IsEntry-Listed, Accesses, start, read, Accesses-join,
  Each, reg_find-IsEntry,
}
use regtable.Core.Text.{Libc, reg_get_str}
use regtable.Core.Text.Access.{IsLibc, reg_get_str-Accesses, reg_set_str-Accesses}
use regtable.Core.Format.{Build}
use regtable.Cli.Output.{Writes, is_float, json_value, json_entry}
use regtable.Cli.Commands.{
  list_json, list_rows, cmd_list, on_entry, get_entry, cmd_get, cmd_set, info_entry, cmd_info,
}
use regtable.Cli.Split.{Split, cli_split}
use regtable.Cli.Process.{
  Command, list, get, set, info, id, fetch, help, Row, Served, cmds, find_row, run_command, run_row,
  run_split, cli_process,
}

module _ (c : Libc) (t : RegTable) where
  -- The device of what a command gives is reached by accesses.
  abbrev Reached : Device → Writes × Device → Type 0
  Reached d o = Accesses t d o.1

  json_value-Reached :
      (e : RegEntry) (d : Device) → Listed t.entries e → Reached d (json_value c e d)
  unfolding json_value
  json_value-Reached e d at =
      if_cases (Reached d) (is_float e.type) _ _ (λ float. read e start at)
        (λ other. reg_get_str-Accesses c t d e 32 at)

  json_entry-Reached :
      (e : RegEntry) (d : Device) → Listed t.entries e → Reached d (json_entry c e d)
  unfolding json_entry
  json_entry-Reached e d at = json_value-Reached e d at

  list_json-Reached :
      (first : Bool) (es : List RegEntry) (d : Device)
      → AllListed t.entries es
      → Reached d (list_json c first es d)
  unfolding list_json
  list_json-Reached first [] d at = start
  list_json-Reached first (e ∷ es) d at =
      Accesses-join (json_entry-Reached e d at.0)
        (list_json-Reached false es (json_entry c e d).1 at.1)

  list_rows-Reached :
      (es : List RegEntry) (d : Device) → AllListed t.entries es → Reached d (list_rows c es d)
  unfolding list_rows
  list_rows-Reached [] d at = start
  list_rows-Reached (e ∷ es) d at =
      let d' = (reg_get_str c e 32 d).1 in
      Accesses-join (reg_get_str-Accesses c t d e 32 at.0) (list_rows-Reached es d' at.1)

  cmd_list-Reached : (json : Bool) (d : Device) → Reached d (cmd_list c t json d)
  unfolding cmd_list
  cmd_list-Reached json d =
      if_cases (Reached d) json _ _
        (λ j. list_json-Reached true t.entries d (AllListed-self t.entries))
        (λ j. list_rows-Reached t.entries d (AllListed-self t.entries))

  get_entry-Reached :
      (json : Bool) (e : RegEntry) (d : Device)
      → Listed t.entries e
      → Reached d (get_entry c json e d)
  unfolding get_entry
  get_entry-Reached json e d at =
      if_cases (Reached d) json _ _ (λ j. json_value-Reached e d at)
        (λ j. reg_get_str-Accesses c t d e 32 at)

  info_entry-Reached :
      (json : Bool) (e : RegEntry) (d : Device)
      → Listed t.entries e
      → Reached d (info_entry c json e d)
  unfolding info_entry
  info_entry-Reached json e d at =
      if_cases (Reached d) json _ _ (λ j. json_entry-Reached e d at)
        (λ j. reg_get_str-Accesses c t d e 32 at)

  found-Reached :
      (json : Bool) (d : Device) (next : EntryRef → Writes × Device) (o : Option EntryRef)
      → Each (IsEntry t.entries t.base) o
      → ((r : EntryRef) → IsEntry t.entries t.base r → Reached d (next r))
      → Reached d (on_entry json d next o)
  found-Reached json d next none at h = start
  found-Reached json d next (some r) at h = h r at

  on_entry-Reached :
      (name : Text) (json : Bool) (d : Device) (next : EntryRef → Writes × Device)
      → ((r : EntryRef) → IsEntry t.entries t.base r → Reached d (next r))
      → Reached d (on_entry json d next (reg_find t name))
  on_entry-Reached name json d next h =
      found-Reached json d next (reg_find t name) (reg_find-IsEntry t name) h

module _ (c : Libc) (b : Build) (s : Served) (ok : IsLibc c) where
  run_command-Reached :
      (cmd : Command) (argv : List Text) (json : Bool) (d : Device)
      → Reached c s.table d (run_command c b s cmd argv json d)
  unfolding run_command cmd_get cmd_set cmd_info
  run_command-Reached list argv json d = cmd_list-Reached c s.table json d
  run_command-Reached get argv json d =
      on_entry-Reached c s.table _ json d _
        (λ r at. get_entry-Reached c s.table json r.entry d (IsEntry-Listed _ _ r at))
  run_command-Reached set argv json d =
      on_entry-Reached c s.table _ json d _ (λ r at. reg_set_str-Accesses c s.table d r _ ok at)
  run_command-Reached info argv json d =
      on_entry-Reached c s.table _ json d _
        (λ r at. info_entry-Reached c s.table json r.entry d (IsEntry-Listed _ _ r at))
  run_command-Reached id argv json d = start
  run_command-Reached fetch argv json d = start
  run_command-Reached help argv json d = start

  run_row-Reached :
      (argv : List Text) (json : Bool) (d : Device) (o : Option Row)
      → Reached c s.table d (run_row c b s argv json d o)
  unfolding run_row
  run_row-Reached argv json d none = start
  run_row-Reached argv json d (some r) =
      if_cases (Reached c s.table d) (not (length argv == r.argc)) _ _ (λ count. start)
        (λ fits. run_command-Reached r.command argv json d)

  run_split-Reached : (line : Split) (d : Device) → Reached c s.table d (run_split c b s line d)
  unfolding run_split
  run_split-Reached line d =
      if_cases (Reached c s.table d) (not line.too_many && length line.argv == 0) _ _
        (λ blank. start)
        λ words.
          if_cases (Reached c s.table d) line.too_many _ _ (λ many. start)
            (λ few. run_row-Reached line.argv line.json d (find_row cmds (get_or line.argv 0 [])))

  pub cli_process-Accesses :
      (line : Text) (d : Device) → Accesses s.table d (cli_process c b s line d).1
  unfolding cli_process
  cli_process-Accesses line d = run_split-Reached (cli_split line) d
