-- ===== src/Core/Dirty.antt =====
-- Change tracking, of src/regtable_core.c: one bit for each entry of a table, set by
-- `reg_mark_dirty`, cleared by `reg_poll`.
pub mod Keeps
pub mod Laws
pub mod Poll
use regtable.Prelude.{ℕ, zero, suc, ◌+◌, ◌-◌, ◌*◌, ◌/◌, ◌%◌, ◌^◌, ◌≤◌, ◌<◌, ◌≡◌, Bool, ◌||◌}
use regtable.Prelude.{Option, none, some, List, [], ◌∷◌, ltb, leb, ◌==◌, if◌then◌else◌}
use regtable.Prelude.{length, get_or, set, take, bit_and, bit_or, not}
use regtable.Core.Types.{Device, RegEntry, EntryRef, RegTable}

-- REGTABLE_MAX_ENTRIES, at its default
abbrev pub max_entries : ℕ
max_entries = 64

-- the length of the array `dirty`
abbrev pub dirty_words : ℕ
dirty_words = (max_entries + 31) / 32

-- `t->dirty[i]`; `IsBitmap` rules the default out.
abbrev pub word_at : List ℕ → ℕ → ℕ
word_at ws i = get_or ws i 0

pub set_bit : ℕ → Device → Device
set_bit idx d = record d {
  dirty = set d.dirty (idx / 32) (bit_or (word_at d.dirty (idx / 32)) (2 ^ (idx % 32)));
}

-- An entry outside the table is left alone.
unfoldable pub reg_mark_dirty : Option RegTable → EntryRef → Device → Device
unfolding set_bit
reg_mark_dirty none r d = d
reg_mark_dirty (some t) r d =
    if ltb r.addr t.base || leb (t.base + t.count) r.addr
    then d
    else set_bit ((r.addr - t.base) % 2 ^ 16) d

-- `t->dirty[idx / 32] & bit`, as a test
pub is_dirty : Device → ℕ → Bool
is_dirty d idx = not (bit_and (word_at d.dirty (idx / 32)) (2 ^ (idx % 32)) == 0)

-- `t->dirty[idx / 32] &= ~bit`
pub clear_bit : ℕ → Device → Device
clear_bit idx d = record d {
  dirty =
      set d.dirty (idx / 32) (bit_and (word_at d.dirty (idx / 32)) (2 ^ 32 - 1 - 2 ^ (idx % 32)));
}

-- The hook, if there is one, and the count of the hooks run.
unfoldable pub run_on_change : Option (Device → Device) → ℕ → Device → ℕ × Device
run_on_change none fired d = (fired, d)
run_on_change (some hook) fired d = ((fired + 1) % 2 ^ 16, hook d)

-- One round: the bit is cleared before the hook runs.
pub poll_entry : RegEntry → ℕ → ℕ → Device → ℕ × Device
unfolding is_dirty clear_bit run_on_change
poll_entry e idx fired d =
    if is_dirty d idx then run_on_change e.on_change fired (clear_bit idx d) else (fired, d)

-- The loop from index `idx` on.
pub poll_from : List RegEntry → ℕ → ℕ → Device → ℕ × Device
unfolding poll_entry
poll_from [] idx fired d = (fired, d)
poll_from (e ∷ es) idx fired d =
    let (fired', d') = poll_entry e idx fired d in poll_from es (idx + 1) fired' d'

unfoldable pub reg_poll : Option RegTable → Device → ℕ × Device
unfolding poll_from
reg_poll none d = (0, d)
reg_poll (some t) d = poll_from (take t.count t.entries) 0 0 d
