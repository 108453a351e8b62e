-- ===== src/Desktop.antt =====
-- example_desktop.c: the command line of src/regtable_cli.c on a terminal, with a sensor that drifts.
pub mod Registers
pub mod Hooks
pub mod Safety
pub mod Interlock
mod Examples
use regtable.Prelude.{ℕ, ◌+◌, ◌%◌, ◌^◌, ◌==◌, if◌then◌else◌, false, codes}
use regtable.Prelude.{Option, none, some, List, [], ◌∷◌, ◌++◌}
use regtable.Core.Types.{RegResult, Device, EntryRef, RegTable, RegIdentity}
use regtable.Core.Memory.{load_raw, store_raw}
use regtable.Core.Dirty.{reg_mark_dirty, reg_poll}
use regtable.Core.Table.{reg_table_init, reg_find}
use regtable.Core.Text.{Libc}
use regtable.Core.Format.{Build}
use regtable.Cli.Output.{Writes}
use regtable.Cli.Feed.{RegCli, regcli_init, regcli_set_identity, regcli_feed}
use regtable.Desktop.Registers.{Layout, Fpu, temp_entry, counter_entry, registry}

-- What goes to the standard output from one part of the program: the calls of the transport, and
-- the prompts.
abbrev pub Output : Type 0
Output = Writes × RegCli × Device

abbrev pub who : RegIdentity
who = record { device = some (codes "demo"); fw = some (codes "1.0"); hash = none; chip = none }

-- No entry has an address below that of the table, so a NULL is left alone.
abbrev pub mark_found : RegTable → Device → Option EntryRef → Device
mark_found t d none = d
mark_found t d (some r) = reg_mark_dirty (some t) r d

module _ (fpu : Fpu) (l : Layout) where
  -- `counter++`
  abbrev pub count_up : Device → Device
  count_up d = record d {
    mem = store_raw (counter_entry l) ((load_raw (counter_entry l) d.mem + 1) % 2 ^ 32) d.mem;
  }

  -- `temperature += 0.5f`
  abbrev pub warm_up : Device → Device
  warm_up d = record d {
    mem = store_raw (temp_entry l) (fpu.plus_half (load_raw (temp_entry l) d.mem)) d.mem;
  }

  -- The business logic: every fourth command the temperature drifts.
  unfoldable pub drift : RegTable → Device → Device
  drift t d =
      let d' = count_up d in
      if load_raw (counter_entry l) d'.mem % 4 == 0
      then mark_found t (warm_up d') (reg_find t (codes "temp"))
      else d'

  -- What follows the call of `regcli_feed`.
  unfoldable pub after_byte : RegTable → ℕ → Device → Writes × Device
  unfolding drift
  after_byte t byte d =
      if byte == b'\n' then (codes "> " ∷ [], (reg_poll (some t) (drift t d)).1) else ([], d)

module _ (c : Libc) (b : Build) (fpu : Fpu) (l : Layout) where
  -- The loop, until the end of the input.
  unfoldable pub loop : RegTable → List ℕ → RegCli → Device → Output
  unfolding after_byte
  loop t [] cli d = ([], cli, d)
  loop t (byte ∷ input) cli d =
      let (ws, cli', d') = regcli_feed c b cli byte d in
      let (ws', d'') = after_byte fpu l t byte d' in
      let (rest, last_cli, last) = loop t input cli' d'' in (ws ++ ws' ++ rest, last_cli, last)

  -- What follows `reg_table_init`: the exit status, and what was written and changed. `memory` is
  -- the session as `main` finds it on its stack.
  pub start_up : RegCli → List ℕ → RegResult × Option RegTable × Device → ℕ × Writes × Device
  unfolding loop
  start_up memory input (res, none, d) = (1, [], d)
  start_up memory input (res, some t, d) =
      let cli = regcli_set_identity (record (regcli_init memory t) { echo = false }) (some who) in
      let (ws, cli', d') = loop t input cli d in
      (0, codes "regtable desktop example. Type 'help'.\n> " ∷ ws, d')

  unfoldable pub main : RegCli → List ℕ → Device → ℕ × Writes × Device
  unfolding start_up reg_table_init registry
  main memory input d = start_up memory input (reg_table_init l.registry (registry fpu l) d)
