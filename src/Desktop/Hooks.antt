-- ===== src/Desktop/Hooks.antt =====
-- The hooks of example_desktop.c, and the stores of its main loop.
use regtable.Prelude.{ℕ, ◌%◌, ◌==◌, if_cases, ◌∙◌, ◌≡◌, sym, refl, Bool}
use regtable.Prelude.{Option, none, some, List, [], ◌∷◌}
use std.Path.{subst}
use regtable.Core.Types.{Device, EntryRef, RegTable}
use regtable.Core.Access.Keeps.{HooksKeep}
use regtable.Core.Access.Hooks.{EntryKeeps, HooksKeep-AllEntries, quiet, printing, refreshed}
use regtable.Core.Memory.{load_raw}
use regtable.Core.Raw.Effect.{mem-reg_mark_dirty}
use regtable.Core.Access.{Accesses}
use regtable.Core.Access.Keeps.{IsStable, Accesses-keeps, reg_poll-keeps}
use regtable.Core.Text.{Libc}
use regtable.Core.Text.Access.{IsLibc}
use regtable.Core.Format.{Build}
use regtable.Cli.Output.{Writes}
use regtable.Cli.Feed.{RegCli, regcli_feed}
use regtable.Cli.Feed.Access.{regcli_feed-Bound}
use regtable.Desktop.{mark_found, count_up, warm_up, drift, after_byte, loop}
use regtable.Desktop.Registers.{
  Layout, Fpu, counter_entry, pump_check, pump_entry, voltage_read, registry, demo_table,
}

module _ {κ} (I : Device → Type κ) where
  module _ (fpu : Fpu) (l : Layout) where
    -- The one hook that changes the device is `voltage_read`.
    pub demo_table-HooksKeep :
        ((d : Device) → I d → I (voltage_read fpu l d)) → HooksKeep (demo_table fpu l) I
    unfolding registry
    demo_table-HooksKeep keeps = HooksKeep-AllEntries I (demo_table fpu l) (
      printing I _ refl refl refl,
      (
        quiet I _ refl refl refl,
        (
          printing I _ refl refl refl,
          (
            quiet I _ refl refl refl,
            (
              printing I _ refl refl refl,
              (
                quiet I _ refl refl refl,
                (checked_pump, (refreshed I _ (voltage_read fpu l) refl refl refl keeps, tt)),
              ),
            ),
          ),
        ),
      ),
    )
      where
        checked_pump : EntryKeeps I (pump_entry l)
        checked_pump = record {
          reads = λ hook d is now. cc is;
          writes = λ hook v d is now.
              let same : pump_check l ≡ hook = cc is in
              subst (λ (h : ℕ → Device → Bool × Device). I (h v d).1) same now;
          changes = λ hook d is now. cc is;
        }

module _ (c : Libc) (b : Build) (fpu : Fpu) (l : Layout) (J : (ℕ → ℕ) → Type 0) where
  abbrev t : RegTable
  t = demo_table fpu l

  -- The property of the memory, of a device.
  abbrev pub I : Device → Type 0
  I d = J d.mem

  -- The accesses, the hooks and the stores of the main loop keep the property.
  pub record LoopKeeps : Type 0 where
    pub floats : IsLibc c
    pub hooks : HooksKeep t I
    pub stable : IsStable t I
    pub counts : (d : Device) → I d → I (count_up fpu l d)
    pub warms : (d : Device) → I d → I (warm_up fpu l d)

  module _ (keeps : LoopKeeps) where
    mark_found-keeps : (d : Device) (o : Option EntryRef) → I d → I (mark_found t d o)
    mark_found-keeps d none now = now
    mark_found-keeps d (some r) now = subst J (sym (mem-reg_mark_dirty (some t) r d)) now

    drift-keeps : (d : Device) → I d → I (drift fpu l t d)
    unfolding drift
    drift-keeps d now =
        let d' = count_up fpu l d in
        let counted = keeps.counts d now in
        if_cases I (load_raw (counter_entry l) d'.mem % 4 == 0) _ _
          (λ fourth. mark_found-keeps _ _ (keeps.warms d' counted)) (λ other. counted)

    after_byte-keeps : (byte : ℕ) (d : Device) → I d → I (after_byte fpu l t byte d).1
    unfolding after_byte registry
    after_byte-keeps byte d now =
        if_cases (λ (o : Writes × Device). I o.1) (byte == b'\n') _ _
          (λ line.
            reg_poll-keeps t I keeps.hooks keeps.stable (drift fpu l t d) refl (drift-keeps d now))
          (λ other. now)

    -- The loop over the whole input keeps the property.
    pub loop-keeps :
        (input : List ℕ) (cli : RegCli) (d : Device)
        → cli.table ≡ t
        → I d
        → I (loop c b fpu l t input cli d).2
    unfolding loop
    loop-keeps [] cli d shared now = now
    loop-keeps (byte ∷ input) cli d shared now =
        let (ws, cli', d') = regcli_feed c b cli byte d in
        let fed = regcli_feed-Bound c b keeps.floats cli d byte in
        let reached : Accesses t d d' =
          subst (λ (x : RegTable). Accesses x d d') shared fed.reached in
        let now' = Accesses-keeps t I keeps.hooks keeps.stable reached now in
        loop-keeps input cli' (after_byte fpu l t byte d').1 (fed.same ∙ shared)
          (after_byte-keeps byte d' now')
