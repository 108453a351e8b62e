-- ===== src/Core/Raw/Effect.antt =====
-- What `reg_set_raw` changes: the variable, the bit of the entry, and nothing else.
use regtable.Prelude.{ℕ, ◌+◌, ◌-◌, ◌%◌, ◌^◌, ◌≤◌, ◌<◌, ◌≡◌, ◌≢◌, ◌⊎◌, inl, inr, refl, arith, ap}
use regtable.Prelude.{
  List, [], ◌∷◌, false, ◌&&◌, ◌||◌, Option, none, some, ltb, leb, not, ◌==◌, ◌∙◌,
}
use regtable.Prelude.{if◌then◌else◌, Bool-cases}
use regtable.Core.Types.{RegType, reg_u8, reg_bool, reg_ok, Device, RegEntry, EntryRef, RegTable}
use regtable.Core.Memory.{size_of, load_raw, store_raw, InDomain}
use regtable.Core.Memory.Laws.{load_raw-store_raw, store_raw_outside}
use regtable.Core.Dirty.{max_entries, reg_mark_dirty, set_bit}
use regtable.Core.Dirty.Laws.{IsBitmap, dirty_bit, dirty_bit-set_bit}
use regtable.Core.Raw.{ask, commit, refresh, reg_set_raw, reg_get_raw}
use regtable.Core.Raw.Check.{
  Admissible, stored, reg_set_raw-ok_iff, reg_set_raw-asked, reg_set_raw-ways,
}

pub mem-reg_mark_dirty :
    (t : Option RegTable) (r : EntryRef) (d : Device) → (reg_mark_dirty t r d).mem ≡ d.mem
unfolding reg_mark_dirty
mem-reg_mark_dirty none r d = refl
mem-reg_mark_dirty (some t) r d = ground arith

-- What is stored lies in the domain of the type.
pub stored-InDomain :
    (ty : RegType) (raw : ℕ) → raw < 2 ^ 32 → Admissible ty raw → InDomain ty (stored ty raw)
stored-InDomain reg_u8 raw h good = good
stored-InDomain reg_bool raw h good = ground arith
stored-InDomain _ raw h good = ground arith

-- `t` is set up for its entries, and the entry `i` of it is `r`.
pub record IsAt (t : RegTable) (r : EntryRef) (i : ℕ) : Type 0 where
  pub small : t.count ≤ max_entries
  pub inside : i < t.count
  pub here : r.addr ≡ t.base + i

reg_mark_dirty-set_bit :
    (t : RegTable) (r : EntryRef) (i : ℕ) (d : Device)
    → IsAt t r i
    → reg_mark_dirty (some t) r d ≡ set_bit i d
unfolding reg_mark_dirty
reg_mark_dirty-set_bit t r i d at = rw inside (ap (λ k. set_bit k d) index)
  where
    inside : (ltb r.addr t.base || leb (t.base + t.count) r.addr) ≡ false
    inside = ground arith

    index : (r.addr - t.base) % 2 ^ 16 ≡ i
    index = omega arith

module _ (r : EntryRef) (v : ℕ) (d : Device) where
  open r use {entry}

  pub mem-commit : (t : Option RegTable) → (commit t r v d).mem ≡ store_raw entry v d.mem
  unfolding commit
  mem-commit t = ground (arith, mem-reg_mark_dirty t r (record d { mem = store_raw entry v d.mem }))

  dirty_bit-commit :
      (t : RegTable) (i : ℕ)
      → IsAt t r i
      → IsBitmap d.dirty
      → (j : ℕ)
      → dirty_bit (commit (some t) r v d) j
        ≡ (if j == i && not (load_raw entry d.mem == v) then 1 else dirty_bit d j)
  unfolding commit
  dirty_bit-commit t i at ok j =
      let d' : Device = record d { mem = store_raw entry v d.mem } in
      elim (Bool-cases (load_raw entry d.mem == v)) [
        | inl same ↦ rw (same, commit) (ground arith)
        | inr changed ↦
            rw (changed, commit, reg_mark_dirty-set_bit t r i d' at)
              (dirty_bit-set_bit d' ok i (omega arith) j ∙ ground arith)
      ]

refresh-none : (hook : Option (Device → Device)) (d : Device) → hook ≡ none → refresh hook d ≡ d
unfolding refresh
refresh-none hook d e = rw e

pub plain_read :
    (e : RegEntry) (d : Device) → e.on_read ≡ none → reg_get_raw e d ≡ (load_raw e d.mem, d)
unfolding reg_get_raw
plain_read e d h = rw (refresh-none e.on_read d h)

-- No entry has a hook that moves its value when it is read.
abbrev pub AllPlain : List RegEntry → Type 0
AllPlain [] = Unit
AllPlain (e ∷ es) = (e.on_read ≡ none) × AllPlain es

module _ (t : Option RegTable) (r : EntryRef) (raw : ℕ) (d : Device) where
  open r use {entry}

  -- The value stored, and the device as `on_write` left it.
  abbrev pub value : ℕ
  value = stored entry.type raw

  abbrev pub asked_device : Device
  asked_device = (ask entry.on_write value d).1

  pub reg_set_raw-commit :
      raw < 2 ^ 32
      → (reg_set_raw t r raw d).0 ≡ reg_ok
      → reg_set_raw t r raw d ≡ (reg_ok, commit t r value asked_device)
  reg_set_raw-commit h ok =
      let a = (reg_set_raw-ok_iff t r raw d h).0 ok in
      reg_set_raw-asked t r raw d a.0 h a.1 a.2 ∙ rw a.3

  reads_back :
      raw < 2 ^ 32
      → (reg_set_raw t r raw d).0 ≡ reg_ok
      → load_raw entry (store_raw entry value asked_device.mem) ≡ value
  reads_back h ok =
      load_raw-store_raw entry asked_device.mem value
        (stored-InDomain entry.type raw h ((reg_set_raw-ok_iff t r raw d h).0 ok).1)

  -- A write that returns REG_OK leaves the value in the entry's variable, and changes no byte
  -- outside the variable of what `on_write` left.
  pub reg_set_raw_stores :
      (a : ℕ)
      → raw < 2 ^ 32
      → (a < entry.ptr) ⊎ (entry.ptr + size_of entry.type ≤ a)
      → (reg_set_raw t r raw d).0 ≡ reg_ok
      → let d' = (reg_set_raw t r raw d).1 in
        (load_raw entry d'.mem ≡ value) × (d'.mem a ≡ asked_device.mem a)
  reg_set_raw_stores a h outside ok =
      rw (reg_set_raw-commit h ok, mem-commit r value asked_device t)
        (reads_back h ok, store_raw_outside entry value asked_device.mem a outside)

  -- A refused write stores nothing and marks nothing: the device is as it was, or as `on_write`
  -- left it.
  pub reg_set_raw_refused :
      raw < 2 ^ 32
      → (reg_set_raw t r raw d).0 ≢ reg_ok
      → ((reg_set_raw t r raw d).1 ≡ d) ⊎ ((reg_set_raw t r raw d).1 ≡ asked_device)
  reg_set_raw_refused h bad = elim (reg_set_raw-ways t r raw d h) [
    | inl early ↦ inl early
    | inr late ↦ ground (arith, late)
  ]

-- A write that returns REG_OK sets the bit of its entry if the value in memory changes, and
-- leaves every other bit as `on_write` left it.
pub reg_set_raw_marks :
    (t : RegTable) (r : EntryRef) (i raw : ℕ) (d : Device)
    → IsAt t r i
    → IsBitmap (asked_device (some t) r raw d).dirty
    → raw < 2 ^ 32
    → (reg_set_raw (some t) r raw d).0 ≡ reg_ok
    → (j : ℕ)
    → dirty_bit (reg_set_raw (some t) r raw d).1 j ≡ (
        if j == i
          && not (load_raw r.entry (asked_device (some t) r raw d).mem == stored r.entry.type raw)
        then 1
        else dirty_bit (asked_device (some t) r raw d) j)
reg_set_raw_marks t r i raw d at bitmap h ok j =
    rw (reg_set_raw-commit (some t) r raw d h ok) (dirty_bit-commit r _ _ t i at bitmap j)
