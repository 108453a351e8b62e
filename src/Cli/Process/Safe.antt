-- ===== src/Cli/Process/Safe.antt =====
-- Which lines write to a register.
use regtable.Prelude.{◌⊎◌, ◌≡◌, ◌∙◌, ap, sym, refl, arith, inl, inr, Bool, true, false, not, ◌&&◌}
use regtable.Prelude.{◌==◌, if_cases, Option-cases, codes}
use regtable.Prelude.{Option, none, some, List, [], ◌∷◌, length, get_or}
use std.Path.{subst}
use regtable.Core.Types.{Text, Device, RegEntry, EntryRef, RegTable}
use regtable.Core.Table.{str_eq, reg_find}
use regtable.Core.Table.Laws.{reg_find-plain, str_eq_iff}
use regtable.Core.Raw.Effect.{AllPlain, plain_read}
use regtable.Core.Text.{Libc, reg_get_str}
use regtable.Core.Format.{Build}
use regtable.Cli.Output.{Writes, is_float, json_value, json_entry}
use regtable.Cli.Commands.{
  list_json, list_rows, cmd_list, on_entry, get_entry, cmd_get, info_entry, cmd_info,
}
use regtable.Cli.Split.{Split, cli_split}
use regtable.Cli.Process.{
  Command, list, get, set, info, id, fetch, help, Row, Served, cmds, find_row, run_command, run_row,
  run_split, cli_process,
}

module _ (c : Libc) where
  reg_get_str-device : (e : RegEntry) (d : Device) → e.on_read ≡ none → (reg_get_str c e 32 d).1 ≡ d
  unfolding reg_get_str
  reg_get_str-device e d plain = ap (λ r. r.1) (plain_read e d plain)

  json_value-device : (e : RegEntry) (d : Device) → e.on_read ≡ none → (json_value c e d).1 ≡ d
  unfolding json_value
  json_value-device e d plain =
      if_cases (λ (o : Writes × Device). o.1 ≡ d) (is_float e.type) _ _
        (λ float. ap (λ r. r.1) (plain_read e d plain)) (λ other. reg_get_str-device e d plain)

  json_entry-device : (e : RegEntry) (d : Device) → e.on_read ≡ none → (json_entry c e d).1 ≡ d
  unfolding json_entry
  json_entry-device e d plain = json_value-device e d plain

  list_json-device :
      (first : Bool) (es : List RegEntry) (d : Device)
      → AllPlain es
      → (list_json c first es d).1 ≡ d
  unfolding list_json
  list_json-device first [] d plain = refl
  list_json-device first (e ∷ es) d plain =
      list_json-device false es (json_entry c e d).1 plain.1 ∙ json_entry-device e d plain.0

  list_rows-device : (es : List RegEntry) (d : Device) → AllPlain es → (list_rows c es d).1 ≡ d
  unfolding list_rows
  list_rows-device [] d plain = refl
  list_rows-device (e ∷ es) d plain =
      list_rows-device es (reg_get_str c e 32 d).1 plain.1 ∙ reg_get_str-device e d plain.0

  cmd_list-device :
      (t : RegTable) (json : Bool) (d : Device) → AllPlain t.entries → (cmd_list c t json d).1 ≡ d
  unfolding cmd_list
  cmd_list-device t json d plain =
      if_cases (λ (o : Writes × Device). o.1 ≡ d) json _ _
        (λ j. list_json-device true t.entries d plain) (λ j. list_rows-device t.entries d plain)

  get_entry-device :
      (json : Bool) (e : RegEntry) (d : Device) → e.on_read ≡ none → (get_entry c json e d).1 ≡ d
  unfolding get_entry
  get_entry-device json e d plain =
      if_cases (λ (o : Writes × Device). o.1 ≡ d) json _ _ (λ j. json_value-device e d plain)
        (λ j. reg_get_str-device e d plain)

  info_entry-device :
      (json : Bool) (e : RegEntry) (d : Device) → e.on_read ≡ none → (info_entry c json e d).1 ≡ d
  unfolding info_entry
  info_entry-device json e d plain =
      if_cases (λ (o : Writes × Device). o.1 ≡ d) json _ _ (λ j. json_entry-device e d plain)
        (λ j. reg_get_str-device e d plain)

  on_entry-device :
      (t : RegTable) (name : Text) (json : Bool) (d : Device) (next : EntryRef → Writes × Device)
      → AllPlain t.entries
      → ((r : EntryRef) → r.entry.on_read ≡ none → (next r).1 ≡ d)
      → (on_entry json d next (reg_find t name)).1 ≡ d
  on_entry-device t name json d next plain keeps = elim (Option-cases (reg_find t name)) [
    | inl missing ↦ rw missing
    | inr (r, found) ↦ rw found (keeps r (reg_find-plain t name r plain found))
  ]

-- A command that is not `set` leaves the device.
abbrev pub IsSetCommand : Command → Type 0
IsSetCommand set = Unit
IsSetCommand _ = ⊥

run_command-device :
    (c : Libc) (b : Build) (s : Served) (cmd : Command) (argv : List Text) (json : Bool)
    (d : Device)
    → AllPlain s.table.entries
    → IsSetCommand cmd ⊎ ((run_command c b s cmd argv json d).1 ≡ d)
unfolding run_command cmd_get cmd_info
run_command-device c b s list argv json d plain = inr (cmd_list-device c s.table json d plain)
run_command-device c b s get argv json d plain =
    inr (on_entry-device c s.table _ json d _ plain (λ r h. get_entry-device c json r.entry d h))
run_command-device c b s set argv json d plain = inl tt
run_command-device c b s info argv json d plain =
    inr (on_entry-device c s.table _ json d _ plain (λ r h. info_entry-device c json r.entry d h))
run_command-device c b s id argv json d plain = inr refl
run_command-device c b s fetch argv json d plain = inr refl
run_command-device c b s help argv json d plain = inr refl

-- A row for `set` has its name and its count of arguments.
abbrev SetRow : Row → Type 0
SetRow r = IsSetCommand r.command → (r.name ≡ codes "set") × (r.argc ≡ 3)

abbrev AllSetRows : List Row → Type 0
AllSetRows [] = Unit
AllSetRows (r ∷ rs) = SetRow r × AllSetRows rs

cmds-AllSetRows : AllSetRows cmds
unfolding cmds
cmds-AllSetRows = (
  λ h. absurd h,
  (
    λ h. absurd h,
    (λ h. (refl, refl), (λ h. absurd h, (λ h. absurd h, (λ h. absurd h, (λ h. absurd h, tt))))),
  ),
)

-- The line is `set` with a name and a value.
abbrev pub IsSetLine : List Text → Type 0
IsSetLine argv = (name : Text) × (value : Text) × (argv ≡ codes "set" ∷ name ∷ value ∷ [])

find_row-SetRow :
    (rs : List Row) (name : Text) (r : Row)
    → AllSetRows rs
    → find_row rs name ≡ some r
    → IsSetCommand r.command
    → (name ≡ codes "set") × (r.argc ≡ 3)
unfolding find_row
find_row-SetRow [] name r all found h = absurd (ground arith)
find_row-SetRow (x ∷ rs) name r all found h =
    if_cases (λ (o : Option Row). o ≡ some r → (name ≡ codes "set") × (r.argc ≡ 3))
      (str_eq name x.name) (some x) (find_row rs name)
      (λ eq same.
        let at : x ≡ r = cc same in
        let here = subst SetRow at all.0 h in
        ((str_eq_iff name x.name).0 eq ∙ ap (λ (y : Row). y.name) at ∙ here.0, here.1))
      (λ ne rest. find_row-SetRow rs name r all.1 rest h) found

three_words : (argv : List Text) → get_or argv 0 [] ≡ codes "set" → length argv ≡ 3 → IsSetLine argv
unfolding codes
three_words [] h e = absurd (ground arith)
three_words (x ∷ []) h e = absurd (ground arith)
three_words (x ∷ y ∷ []) h e = absurd (ground arith)
three_words (x ∷ y ∷ z ∷ []) h e = (y, z, ap (λ w. w ∷ y ∷ z ∷ []) h)
three_words (x ∷ y ∷ z ∷ u ∷ ws) h e = absurd (ground arith)

module _ (c : Libc) (b : Build) (s : Served) where
  -- What a line did: it was `set` with a name and a value, or the device is as before.
  abbrev Keeps : Device → List Text → Writes × Device → Type 0
  Keeps d argv o = IsSetLine argv ⊎ (o.1 ≡ d)

  run_command-Keeps :
      (r : Row) (argv : List Text) (json : Bool) (d : Device)
      → AllPlain s.table.entries
      → find_row cmds (get_or argv 0 []) ≡ some r
      → length argv ≡ r.argc
      → Keeps d argv (run_command c b s r.command argv json d)
  run_command-Keeps r argv json d plain found len =
      elim (run_command-device c b s r.command argv json d plain) [
        | inl h ↦
            let (word, argc) = find_row-SetRow cmds _ r cmds-AllSetRows found h in
            inl (three_words argv word (len ∙ argc))
        | inr same ↦ inr same
      ]

  run_row-Keeps :
      (argv : List Text) (json : Bool) (d : Device)
      → AllPlain s.table.entries
      → Keeps d argv (run_row c b s argv json d (find_row cmds (get_or argv 0 [])))
  unfolding run_row
  run_row-Keeps argv json d plain = elim (Option-cases (find_row cmds (get_or argv 0 []))) [
    | inl missing ↦
        subst (λ (o : Option Row). Keeps d argv (run_row c b s argv json d o)) (sym missing)
          (inr refl)
    | inr (r, found) ↦
        subst (λ (o : Option Row). Keeps d argv (run_row c b s argv json d o)) (sym found)
          (if_cases (Keeps d argv) (not (length argv == r.argc)) _ _ (λ e. inr refl)
            (λ e. run_command-Keeps r argv json d plain found (ground arith)))
  ]

  run_split-Keeps :
      (line : Split) (d : Device)
      → AllPlain s.table.entries
      → Keeps d line.argv (run_split c b s line d)
  unfolding run_split
  run_split-Keeps line d plain =
      if_cases (Keeps d line.argv) (not line.too_many && length line.argv == 0) _ _ (λ e. inr refl)
        (λ e.
          if_cases (Keeps d line.argv) line.too_many _ _ (λ many. inr refl)
            (λ few. run_row-Keeps line.argv line.json d plain))

  -- In a table none of whose entries has a read hook, the only lines that write to a register or
  -- change anything else on the device are those that read `set` with a name and a value.
  pub cli_process_keeps :
      (line : Text) (d : Device)
      → AllPlain s.table.entries
      → IsSetLine (cli_split line).argv ⊎ ((cli_process c b s line d).1 ≡ d)
  unfolding cli_process
  cli_process_keeps line d plain = run_split-Keeps (cli_split line) d plain
