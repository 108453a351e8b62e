-- ===== src/GenCli/Examples.antt =====
-- A run of tools/gen_cli.c over the small table of Core/Examples.
use regtable.Prelude.{◌<◌, ◌≤◌, ◌≡◌, ◌⊎◌, codes, true, false, none, List, [], ◌∷◌, replicate}
use regtable.Core.Types.{Text}
use regtable.Core.Dirty.{max_entries}
use regtable.Core.Examples.{temp, led, count, table, fresh}
use regtable.Core.Text.Examples.{libc}
use regtable.Cli.Feed.{RegCli}
use regtable.Mqtt.Poll.{Session, Publish}
use regtable.Modbus.Pdu.Replies.{Yields}
use regtable.System.{Setup, System, run}
use regtable.GenCli.{main}
use regtable.GenCli.Equivalent.{fed_and_polled, behind, begun, main-run}

abbrev keep : Publish (List (Text × Text))
keep topic payload retain kept = (true, (topic, payload) ∷ kept)

abbrev setup : Setup (List (Text × Text))
setup = record {
  libc = libc;
  build = record { built = codes "today"; compiler = none };
  publish = keep;
  modbus = record { table = table; addr = 17; word_swap = false };
  prefix = b'd' ∷ [];
}

abbrev memory : RegCli
memory = record {
  table = table;
  buf = replicate 128 0;
  pos = 0;
  echo = true;
  overflow = false;
  identity = none;
}

abbrev session : Session (List (Text × Text))
session = record { shadow = replicate 64 0; synced = 0 ∷ 0 ∷ []; device = fresh; client = [] }

main-run_example :
    let (status, ws, d') =
      main libc setup.build 1000
        (temp ∷ led ∷ count ∷ [])
        memory
        (codes "demo")
        (codes "set t 42\n")
        fresh in
    ((3 ≤ max_entries)
      × (status ≡ 0)
      × Yields
          (λ (s' : System (List (Text × Text))). d' ≡ s'.session.device)
          (run
            (behind setup 1000 (temp ∷ led ∷ count ∷ []))
            (begun setup 1000 (temp ∷ led ∷ count ∷ []) memory (codes "demo") session fresh)
            (fed_and_polled (codes "set t 42\n"))))
    ⊎ ((max_entries < 3) × (status ≡ 1) × (ws ≡ []) × (d' ≡ fresh))
main-run_example =
    main-run setup 1000 (temp ∷ led ∷ count ∷ []) memory (codes "demo") (codes "set t 42\n") session
      fresh
