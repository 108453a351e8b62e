-- ===== src/GenCli.antt =====
-- tools/gen_cli.c: the command line of src/regtable_cli.c over a generated table, which is an
-- argument, as is the name of the device in it. What `getchar` returns is a list of bytes.
pub mod Equivalent
mod Examples
use regtable.Prelude.{ℕ, false, codes, Option, none, some, List, [], ◌∷◌, ◌++◌}
use regtable.Core.Types.{Text, RegResult, Device, RegEntry, RegTable, RegIdentity}
use regtable.Core.Dirty.{reg_poll}
use regtable.Core.Table.{reg_table_init}
use regtable.Core.Text.{Libc}
use regtable.Core.Format.{Build}
use regtable.Cli.Output.{Writes}
use regtable.Cli.Feed.{RegCli, regcli_init, regcli_set_identity, regcli_feed}

abbrev pub who : Text → RegIdentity
who name = record { device = some name; fw = some (codes "test"); hash = none; chip = none }

-- `regcli_init`, the echo off, and the identity.
abbrev pub set_up : RegCli → RegTable → Text → RegCli
set_up memory t name =
    regcli_set_identity (record (regcli_init memory t) { echo = false }) (some (who name))

module _ (c : Libc) (b : Build) where
  -- The loop, until the end of the input.
  unfoldable pub loop : RegTable → List ℕ → RegCli → Device → Writes × RegCli × Device
  loop t [] cli d = ([], cli, d)
  loop t (byte ∷ input) cli d =
      let (ws, cli', d') = regcli_feed c b cli byte d in
      let (rest, last_cli, last) = loop t input cli' (reg_poll (some t) d').1 in
      (ws ++ rest, last_cli, last)

  -- What follows `reg_table_init`: the exit status, what is written, and the device.
  pub serve_table :
      RegCli → Text → List ℕ → RegResult × Option RegTable × Device → ℕ × Writes × Device
  unfolding loop
  serve_table memory name input (res, none, d) = (1, [], d)
  serve_table memory name input (res, some t, d) =
      let (ws, cli, d') = loop t input (set_up memory t name) d in (0, ws, d')

  -- `memory` is the static `cli`.
  unfoldable pub main : ℕ → List RegEntry → RegCli → Text → List ℕ → Device → ℕ × Writes × Device
  unfolding serve_table
  main base entries memory name input d =
      serve_table memory name input (reg_table_init base entries d)
