-- ===== src/Desktop/Safety.antt =====
-- The registers of example_desktop.c, whatever is typed.
use regtable.Prelude.{ℕ, ◌+◌, ◌%◌, ◌^◌, ◌≡◌, refl, sym}
use regtable.Prelude.{false, some, List, []}
use std.Path.{subst}
use regtable.Core.Types.{Device, RegTable}
use regtable.Core.Memory.{load_raw, store_raw}
use regtable.Core.Table.{reg_table_init}
use regtable.Core.Access.Sound.{IsLaid, IsValid, IsValid-IsStable, own_store}
use regtable.Core.Text.{Libc}
use regtable.Core.Text.Access.{IsLibc}
use regtable.Core.Format.{Build}
use regtable.Cli.Feed.{RegCli, regcli_init, regcli_set_identity}
use regtable.Desktop.{who, count_up, warm_up, loop, main}
use regtable.Desktop.Registers.{
  Layout, Fpu, temp_entry, counter_entry, voltage_entry, voltage_read, adc_counts, registry,
  demo_table,
}
use regtable.Desktop.Hooks.{demo_table-HooksKeep, LoopKeeps, loop-keeps}

module _ (c : Libc) (b : Build) (fpu : Fpu) (l : Layout) where
  abbrev t : RegTable
  t = demo_table fpu l

  -- A fresh session of the demo.
  abbrev demo_cli : RegCli → RegCli
  demo_cli memory = regcli_set_identity (record (regcli_init memory t) { echo = false }) (some who)

  main_lem :
      (memory : RegCli) (input : List ℕ) (d : Device)
      → ((main c b fpu l memory input d).0 ≡ 0)
        × ((main c b fpu l memory input d).2
            ≡ (loop c b fpu l t input
                (demo_cli memory)
                (reg_table_init l.registry (registry fpu l) d).2).2)
  unfolding main reg_table_init registry
  main_lem memory input d = (refl, refl)

  mem-init : (d : Device) → (reg_table_init l.registry (registry fpu l) d).2.mem ≡ d.mem
  unfolding reg_table_init registry
  mem-init d = refl

  module _ (laid : IsLaid t.entries) where
    voltage_read-IsValid : (d : Device) → IsValid t d → IsValid t (voltage_read fpu l d)
    unfolding registry store_raw
    voltage_read-IsValid d now =
        own_store t laid (voltage_entry fpu l) (fpu.to_volts (adc_counts l d)) d (7, refl) refl now

    count_up-IsValid : (d : Device) → IsValid t d → IsValid t (count_up fpu l d)
    unfolding registry
    count_up-IsValid d now =
        own_store t laid (counter_entry l) ((load_raw (counter_entry l) d.mem + 1) % 2 ^ 32) d
          (3, refl) refl now

    warm_up-IsValid : (d : Device) → IsValid t d → IsValid t (warm_up fpu l d)
    unfolding registry
    warm_up-IsValid d now =
        own_store t laid (temp_entry l) (fpu.plus_half (load_raw (temp_entry l) d.mem)) d (0, refl)
          refl now

    abbrev ValidMem : (ℕ → ℕ) → Type 0
    ValidMem m = IsValid t (record { mem = m; dirty = [] })

    IsValid-LoopKeeps : IsLibc c → LoopKeeps c b fpu l ValidMem
    IsValid-LoopKeeps floats = record {
      floats = floats;
      hooks = demo_table-HooksKeep (IsValid t) fpu l voltage_read-IsValid;
      stable = IsValid-IsStable t laid;
      counts = count_up-IsValid;
      warms = warm_up-IsValid;
    }

    -- Whatever is typed, for as long as it is typed, the program comes to its end with status 0, and
    -- every writable variable holds a value of its type within its limits, if it did at the start and
    -- the linker lays the variables apart.
    pub main-IsValid :
        (memory : RegCli) (input : List ℕ) (d : Device)
        → IsLibc c
        → IsValid t d
        → ((main c b fpu l memory input d).0 ≡ 0) × IsValid t (main c b fpu l memory input d).2
    main-IsValid memory input d floats now =
        let (ended, is) = main_lem memory input d in
        let begun = (reg_table_init l.registry (registry fpu l) d).2 in
        let valid : IsValid t begun = subst ValidMem (sym (mem-init d)) now in
        (
          ended,
          subst (IsValid t) (sym is) (
              loop-keeps c b fpu l ValidMem (IsValid-LoopKeeps floats) input (demo_cli memory) begun
                refl valid),
        )
