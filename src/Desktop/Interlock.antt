-- ===== src/Desktop/Interlock.antt =====
-- The interlock of the pump of example_desktop.c.
use regtable.Prelude.{ℕ, ◌+◌, ◌%◌, ◌^◌, ◌<◌, ◌≡◌, ◌∙◌, inl, inr, refl, sym, ap, arith}
use regtable.Prelude.{true, some, List, get_elem?}
use std.Path.{subst}
use regtable.Core.Types.{reg_rw, Device, RegEntry, RegTable}
use regtable.Core.Memory.{load_raw, store_raw, InDomain}
use regtable.Core.Memory.Laws.{
  load_raw-store_raw, IsDisjoint, IsDisjoint-sym, load_raw-store_raw_ne,
}
use regtable.Core.Float.{float_lt}
use regtable.Core.Dirty.Laws.{mem-clear_bit}
use regtable.Core.Raw.{ask}
use regtable.Core.Raw.Check.{stored}
use regtable.Core.Raw.Effect.{asked_device, mem-commit, stored-InDomain}
use regtable.Core.Access.Keeps.{IsStable}
use regtable.Core.Access.Sound.{IsLaid, IsLaid-at}
use regtable.Core.Text.{Libc}
use regtable.Core.Text.Access.{IsLibc}
use regtable.Core.Format.{Build}
use regtable.Cli.Feed.{RegCli}
use regtable.Desktop.{count_up, warm_up, loop}
use regtable.Desktop.Registers.{
  Layout, Fpu, temp_entry, counter_entry, ninety, pump_check, pump_entry, voltage_entry,
  voltage_read, adc_counts, registry, demo_table,
}
use regtable.Desktop.Hooks.{demo_table-HooksKeep, LoopKeeps, loop-keeps}

-- Overheated, and the pump off.
abbrev pub IsShut : Layout → (ℕ → ℕ) → Type 0
IsShut l m = (float_lt ninety (load_raw (temp_entry l) m) ≡ true) × (load_raw (pump_entry l) m ≡ 0)

-- Half a degree more is no cooler, and fits a float.
abbrev pub IsWarming : Fpu → Type 0
IsWarming fpu =
    (w : ℕ)
    → float_lt ninety w ≡ true
    → (float_lt ninety (fpu.plus_half w) ≡ true) × (fpu.plus_half w < 2 ^ 32)

module _ (c : Libc) (b : Build) (fpu : Fpu) (l : Layout) where
  abbrev t : RegTable
  t = demo_table fpu l

  module _ (laid : IsLaid t.entries) where
    -- A store to another variable.
    apart-IsShut :
        (r : RegEntry) (v : ℕ) (m : ℕ → ℕ)
        → IsDisjoint (temp_entry l) r
        → IsDisjoint (pump_entry l) r
        → IsShut l m
        → IsShut l (store_raw r v m)
    apart-IsShut r v m from_temp from_pump now = (
      ap (float_lt ninety) (load_raw-store_raw_ne (temp_entry l) r m v from_temp) ∙ now.0,
      load_raw-store_raw_ne (pump_entry l) r m v from_pump ∙ now.1,
    )

    -- A store by an access: the temperature is read-only, and the pump is checked.
    access-IsShut :
        (r : RegEntry) (i v : ℕ) (m : ℕ → ℕ)
        → get_elem? t.entries i ≡ some r
        → r.perm ≡ reg_rw
        → InDomain r.type v
        → (pump_entry l ≡ r → v ≡ 0)
        → IsShut l m
        → IsShut l (store_raw r v m)
    unfolding registry
    access-IsShut r i v m there writable small checked now =
        elim (IsLaid-at t.entries (temp_entry l) r 0 i laid refl there) [
          | inl same ↦ cc (ap (λ (x : RegEntry). x.perm) same, writable)
          | inr from_temp ↦ elim (IsLaid-at t.entries (pump_entry l) r 6 i laid refl there) [
            | inl same ↦ (
              ap (float_lt ninety) (load_raw-store_raw_ne (temp_entry l) r m v from_temp) ∙ now.0,
              ap (λ (x : RegEntry). load_raw x (store_raw r v m)) same
                  ∙ load_raw-store_raw r m v small
                  ∙ checked same,
            )
            | inr from_pump ↦ apart-IsShut r v m from_temp from_pump now
          ]
        ]

    -- The check of the pump lets a 0 through only.
    checked_off :
        (r : RegEntry) (v : ℕ) (d : Device)
        → IsShut l d.mem
        → pump_entry l ≡ r
        → (ask r.on_write v d).0 ≡ true
        → v ≡ 0
    checked_off r v d now same allowed =
        let asked : (pump_check l v d).0 ≡ true =
          ap (λ (x : RegEntry). (ask x.on_write v d).0) same ∙ allowed in
        ground (arith, now.0)

    voltage_read-IsShut : (d : Device) → IsShut l d.mem → IsShut l (voltage_read fpu l d).mem
    unfolding registry store_raw
    voltage_read-IsShut d now =
        apart-IsShut (voltage_entry fpu l) (fpu.to_volts (adc_counts l d)) d.mem
          laid.0.1.1.1.1.1.1.0 laid.1.1.1.1.1.1.0.0 now

    count_up-IsShut : (d : Device) → IsShut l d.mem → IsShut l (count_up fpu l d).mem
    unfolding registry
    count_up-IsShut d now =
        apart-IsShut (counter_entry l) ((load_raw (counter_entry l) d.mem + 1) % 2 ^ 32) d.mem
          laid.0.1.1.0 (IsDisjoint-sym (counter_entry l) (pump_entry l) laid.1.1.1.0.1.1.0) now

    warm_up-IsShut : IsWarming fpu → (d : Device) → IsShut l d.mem → IsShut l (warm_up fpu l d).mem
    unfolding registry
    warm_up-IsShut warming d now =
        let w = load_raw (temp_entry l) d.mem in
        let (hotter, small) = warming w now.0 in
        (
          ap (float_lt ninety) (load_raw-store_raw (temp_entry l) d.mem (fpu.plus_half w) small)
              ∙ hotter,
          load_raw-store_raw_ne (pump_entry l) (temp_entry l) d.mem (fpu.plus_half w)
                (IsDisjoint-sym (temp_entry l) (pump_entry l) laid.0.1.1.1.1.1.0)
              ∙ now.1,
        )

    IsShut-IsStable : IsStable t (λ d. IsShut l d.mem)
    IsShut-IsStable = record {
      stores = λ r raw d at h (writable, good, near, allowed) before now.
          let v = stored r.entry.type raw in
          let d' = asked_device (some t) r raw d in
          subst (IsShut l) (sym (mem-commit r v d' (some t))) (
            access-IsShut r.entry at.0 v d'.mem at.1 writable
              (stored-InDomain r.entry.type raw h good)
              (λ same. checked_off r.entry v d before same allowed) now);
      bits = λ i d now. subst (IsShut l) (sym (mem-clear_bit i d)) now;
    }

    IsShut-LoopKeeps : IsLibc c → IsWarming fpu → LoopKeeps c b fpu l (IsShut l)
    IsShut-LoopKeeps floats warming = record {
      floats = floats;
      hooks = demo_table-HooksKeep (λ d. IsShut l d.mem) fpu l voltage_read-IsShut;
      stable = IsShut-IsStable;
      counts = count_up-IsShut;
      warms = warm_up-IsShut warming;
    }

    -- The interlock: while the temperature is over 90 and the pump is off, nothing that is typed
    -- turns the pump on, and the temperature stays over 90, if the variables lie apart and half a
    -- degree more is no cooler.
    pub loop-IsShut :
        (input : List ℕ) (cli : RegCli) (d : Device)
        → IsLibc c
        → IsWarming fpu
        → cli.table ≡ t
        → IsShut l d.mem
        → IsShut l (loop c b fpu l t input cli d).2.mem
    loop-IsShut input cli d floats warming shared now =
        loop-keeps c b fpu l (IsShut l) (IsShut-LoopKeeps floats warming) input cli d shared now
