-- ===== src/GenCli/Equivalent.antt =====
-- `main` of tools/gen_cli.c, as a run of the calls of System.
use regtable.Prelude.{ℕ, ◌≡◌, ◌∙◌, refl, leb, none, some, List, [], ◌∷◌}
use regtable.Core.Types.{Text, Device, RegEntry, RegTable}
use regtable.Prelude.{◌⊎◌, ◌<◌, ◌≤◌, inl, inr, Bool-cases, length, replicate, arith}
use regtable.Core.Types.{reg_ok, reg_err_table}
use regtable.Core.Dirty.{max_entries, dirty_words}
use regtable.Core.Table.{reg_table_init}
use regtable.Core.Table.Laws.{reg_table_init_lem}
use regtable.Modbus.Pdu.Replies.{Yields}
use regtable.Cli.Feed.{RegCli, regcli_feed}
use regtable.Mqtt.Poll.{Session}
use regtable.Core.Dirty.{reg_poll}
use regtable.System.{Setup, System, Event, byte, deferred_hooks, with_device, run}
use regtable.GenCli.{set_up, loop, serve_table, main}

-- For each byte, a call of `regcli_feed` and one of `reg_poll`.
abbrev pub fed_and_polled : List ℕ → List Event
fed_and_polled [] = []
fed_and_polled (b ∷ input) = byte b ∷ deferred_hooks ∷ fed_and_polled input

module _ {ℓ} {W : Type ℓ} (u : Setup W) where
  -- The loop is the run of these events, on a table that the other adapters may share:
  -- it leaves the same session and the same device.
  pub run-loop :
      (input : List ℕ) (s : System W)
      → let (ws, cli, d) = loop u.libc u.build u.modbus.table input s.cli s.session.device in
        run u s (fed_and_polled input) ≡ some (with_device (record s { cli = cli }) d)
  unfolding run loop
  run-loop [] s = refl
  run-loop (b ∷ input) s =
      let (ws, cli, d) = regcli_feed u.libc u.build s.cli b s.session.device in
      run-loop input (with_device (record s { cli = cli }) (reg_poll (some u.modbus.table) d).1)

module _ {ℓ} {W : Type ℓ} (u : Setup W) (base : ℕ) (entries : List RegEntry) where
  -- The table that is bound, behind the adapters.
  abbrev pub bound_table : RegTable
  bound_table = record { base = base; entries = entries; count = length entries }

  abbrev pub behind : Setup W
  behind = record u { modbus = record u.modbus { table = bound_table } }

  -- The session that is set up, at the cleared bitmap.
  abbrev pub begun : RegCli → Text → Session W → Device → System W
  begun memory name s d = record {
    cli = set_up memory bound_table name;
    session = record s { device = record d { dirty = replicate dirty_words 0 } };
  }

  -- A table of at most REGTABLE_MAX_ENTRIES entries is served to the end of the input, and the
  -- program ends with status 0 and the device of the run of its calls; a larger one is refused with
  -- status 1, with nothing written and nothing changed.
  pub main-run :
      (memory : RegCli) (name : Text) (input : List ℕ) (s : Session W) (d : Device)
      → let (status, ws, d') = main u.libc u.build base entries memory name input d in
        ((length entries ≤ max_entries)
          × (status ≡ 0)
          × Yields
              (λ (s' : System W). d' ≡ s'.session.device)
              (run behind (begun memory name s d) (fed_and_polled input)))
        ⊎ ((max_entries < length entries) × (status ≡ 1) × (ws ≡ []) × (d' ≡ d))
  unfolding main serve_table
  main-run memory name input s d =
      let init = reg_table_init_lem base entries d in
      let cleared : Device = record d { dirty = replicate dirty_words 0 } in
      elim (Bool-cases (leb (length entries) max_entries)) [
        | inl fits ↦
            let bound : reg_table_init base entries d ≡ (reg_ok, some bound_table, cleared) =
              init ∙ rw fits in
            let (ws, cli, d') =
              loop u.libc u.build bound_table input (set_up memory bound_table name) cleared in
            inl (
              ground arith,
              rw bound,
              (
                with_device (record (begun memory name s d) { cli = cli }) d',
                run-loop behind input (begun memory name s d),
                rw bound,
              ),
            )
        | inr over ↦
            let refused : reg_table_init base entries d ≡ (reg_err_table, none, d) =
              init ∙ rw over in
            inr (ground arith, rw refused, rw refused, rw refused)
      ]
