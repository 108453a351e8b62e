-- ===== src/Core/Access/Keeps.antt =====
-- Properties of the device under the accesses and `reg_poll` of src/regtable_core.c, and under the
-- hooks of a table.
use regtable.Prelude.{ℕ, ◌^◌, ◌<◌, ◌≡◌, ◌∙◌, ap, sym, refl, inl, inr, Bool-cases}
use regtable.Prelude.{Bool, Option, none, some, length}
use std.Path.{subst}
use regtable.Core.Types.{reg_ok, reg_err_rejected, Device, RegEntry, EntryRef, RegTable}
use regtable.Core.Dirty.{clear_bit, run_on_change, reg_poll}
use regtable.Core.Dirty.Keeps
use regtable.Core.Raw.{ask, commit, refresh, reg_set_raw, reg_get_raw}
use regtable.Core.Raw.Check.{
  Admissible, InLimits, stored, Allowed, reg_set_raw-ok_iff, reg_set_raw-ways,
}
use regtable.Core.Raw.Effect.{asked_device}
use regtable.Core.Access.{Listed, IsEntry, IsEntry-Listed, Accesses, start, read, write}

-- A value that an entry may hold.
abbrev pub IsValue : RegEntry → ℕ → Type 0
IsValue e v = Admissible e.type v × InLimits e v

module _ {κ} (t : RegTable) (I : Device → Type κ) where
  -- The hooks of the table keep the property.
  pub record HooksKeep : Type κ where
    pub reads :
        (e : RegEntry) (hook : Device → Device) (d : Device)
        → Listed t.entries e
        → e.on_read ≡ some hook
        → I d
        → I (hook d)
    pub writes :
        (e : RegEntry) (hook : ℕ → Device → Bool × Device) (v : ℕ) (d : Device)
        → Listed t.entries e
        → e.on_write ≡ some hook
        → I d
        → I (hook v d).1
    pub changes :
        (e : RegEntry) (hook : Device → Device) (d : Device)
        → Listed t.entries e
        → e.on_change ≡ some hook
        → I d
        → I (hook d)

  -- So does a store that `reg_set_raw` permits, and the bitmap does not matter.
  pub record IsStable : Type κ where
    pub stores :
        (r : EntryRef) (raw : ℕ) (d : Device)
        → IsEntry t.entries t.base r
        → raw < 2 ^ 32
        → Allowed (some t) r raw d
        → I d
        → I (asked_device (some t) r raw d)
        → I (commit (some t) r (stored r.entry.type raw) (asked_device (some t) r raw d))
    pub bits : (i : ℕ) (d : Device) → I d → I (clear_bit i d)

  module _ (hooks : HooksKeep) (stable : IsStable) where
    refresh-keeps : (e : RegEntry) (d : Device) → Listed t.entries e → I d → I (refresh e.on_read d)
    unfolding refresh
    refresh-keeps e d at now = by_hook e.on_read refl
      where
        by_hook : (o : Option (Device → Device)) → e.on_read ≡ o → I (refresh o d)
        by_hook none is = now
        by_hook (some hook) is = hooks.reads e hook d at is now

    ask-keeps :
        (e : RegEntry) (v : ℕ) (d : Device) → Listed t.entries e → I d → I (ask e.on_write v d).1
    ask-keeps e v d at now = by_hook e.on_write refl
      where
        by_hook : (o : Option (ℕ → Device → Bool × Device)) → e.on_write ≡ o → I (ask o v d).1
        by_hook none is = now
        by_hook (some hook) is = hooks.writes e hook v d at is now

    run_on_change-keeps :
        (e : RegEntry) (fired : ℕ) (d : Device)
        → Listed t.entries e
        → I d
        → I (run_on_change e.on_change fired d).1
    unfolding run_on_change
    run_on_change-keeps e fired d at now = by_hook e.on_change refl
      where
        by_hook : (o : Option (Device → Device)) → e.on_change ≡ o → I (run_on_change o fired d).1
        by_hook none is = now
        by_hook (some hook) is = hooks.changes e hook d at is now

    reg_set_raw-keeps :
        (r : EntryRef) (raw : ℕ) (d : Device)
        → IsEntry t.entries t.base r
        → raw < 2 ^ 32
        → I d
        → I (reg_set_raw (some t) r raw d).1
    reg_set_raw-keeps r raw d at h now =
        let v = stored r.entry.type raw in
        let asked = ask r.entry.on_write v d in
        let after : I asked.1 = ask-keeps r.entry v d (IsEntry-Listed _ _ r at) now in
        elim (reg_set_raw-ways (some t) r raw d h) [
          | inl early ↦ subst I (sym early) now
          | inr late ↦ elim (Bool-cases asked.0) [
            | inl allowed ↦
                let is : reg_set_raw (some t) r raw d ≡ (reg_ok, commit (some t) r v asked.1) =
                  late ∙ rw allowed in
                let a = (reg_set_raw-ok_iff (some t) r raw d h).0 (ap (λ o. o.0) is) in
                subst I (sym (ap (λ o. o.1) is)) (stable.stores r raw d at h a now after)
            | inr refused ↦
                let is : reg_set_raw (some t) r raw d ≡ (reg_err_rejected, asked.1) =
                  late ∙ rw refused in
                subst I (sym (ap (λ o. o.1) is)) after
          ]
        ]

    reg_get_raw-keeps :
        (e : RegEntry) (d : Device) → Listed t.entries e → I d → I (reg_get_raw e d).1
    unfolding reg_get_raw
    reg_get_raw-keeps e d at now = refresh-keeps e d at now

    pub Accesses-keeps : {d u : Device} → Accesses t d u → I d → I u
    Accesses-keeps start now = now
    Accesses-keeps (read e before at) now = reg_get_raw-keeps e _ at (Accesses-keeps before now)
    Accesses-keeps (write r raw before at h) now =
        reg_set_raw-keeps r raw _ at h (Accesses-keeps before now)

    pub reg_poll-keeps : (d : Device) → t.count ≡ length t.entries → I d → I (reg_poll (some t) d).1
    reg_poll-keeps = Keeps.reg_poll-keeps t I stable.bits run_on_change-keeps
