-- ===== src/Core/Dirty/Poll.antt =====
-- `reg_poll` as a whole: which hooks run, and what is left of the bitmap.
use regtable.Prelude.{ltb, ℕ, ◌+◌, ◌%◌, ◌^◌, ◌≤◌, ◌<◌, ◌≡◌}
use regtable.Prelude.{Option, none, some, List, [], ◌∷◌, ◌==◌, if◌then◌else◌}
use regtable.Prelude.{length, refl, arith, inl, inr, Bool-cases, ap, take_all}
use regtable.Prelude.Bits.{bit-lt}
use regtable.Core.Types.{Device, RegEntry, RegTable}
use regtable.Core.Dirty.{max_entries, clear_bit, run_on_change}
use regtable.Core.Dirty.{poll_entry, poll_from, reg_poll}
use regtable.Core.Dirty.Laws.{
  IsBitmap, dirty_bit, dirty_bit-clear_bit, clear_bit-IsBitmap, is_dirty-eq, bit_cases,
}

-- A hook that does not touch the bitmap.
abbrev pub IsQuiet : Option (Device → Device) → Type 0
IsQuiet none = Unit
IsQuiet (some hook) = (d : Device) → (hook d).dirty ≡ d.dirty

abbrev pub AllQuiet : List RegEntry → Type 0
AllQuiet [] = Unit
AllQuiet (e ∷ es) = IsQuiet e.on_change × AllQuiet es

abbrev has_hook : Option (Device → Device) → ℕ
has_hook none = 0
has_hook (some hook) = 1

has_hook-le : (hook : Option (Device → Device)) → has_hook hook ≤ 1
has_hook-le none = omega arith
has_hook-le (some hook) = omega arith

-- How many of the entries, from index `idx` on, are dirty and have a hook.
abbrev pub pending : List RegEntry → ℕ → Device → ℕ
pending [] idx d = 0
pending (e ∷ es) idx d =
    (if dirty_bit d idx == 1 then has_hook e.on_change else 0) + pending es (idx + 1) d

pending_congr :
    (es : List RegEntry) (idx : ℕ) (d d' : Device)
    → ((j : ℕ) → idx ≤ j → dirty_bit d j ≡ dirty_bit d' j)
    → pending es idx d ≡ pending es idx d'
pending_congr [] idx d d' same = refl
pending_congr (e ∷ es) idx d d' same =
    ground
      (arith, same idx (omega arith), pending_congr es (idx + 1) d d' (λ j h. same j (omega arith)))

pending-le : (es : List RegEntry) (idx : ℕ) (d : Device) → pending es idx d ≤ length es
pending-le [] idx d = omega arith
pending-le (e ∷ es) idx d = grind (arith, has_hook-le e.on_change, pending-le es (idx + 1) d)

-- What one round leaves.
record Polled (hook : Option (Device → Device)) (idx fired : ℕ) (d : Device) (out : ℕ × Device)
    : Type 0 where
  bitmap : IsBitmap out.1.dirty
  bits : (j : ℕ) → dirty_bit out.1 j ≡ (if j == idx then 0 else dirty_bit d j)
  count : out.0 ≡ (fired + (if dirty_bit d idx == 1 then has_hook hook else 0)) % 2 ^ 16

run_on_change-quiet :
    (hook : Option (Device → Device)) (fired : ℕ) (d : Device)
    → IsQuiet hook
    → fired < 2 ^ 16
    → ((run_on_change hook fired d).1.dirty ≡ d.dirty)
      × ((run_on_change hook fired d).0 ≡ (fired + has_hook hook) % 2 ^ 16)
unfolding run_on_change
run_on_change-quiet none fired d quiet h = (refl, omega arith)
run_on_change-quiet (some hook) fired d quiet h = (quiet d, refl)

poll_entry_clean :
    (e : RegEntry) (idx fired : ℕ) (d : Device)
    → dirty_bit d idx ≡ 0
    → poll_entry e idx fired d ≡ (fired, d)
unfolding poll_entry
poll_entry_clean e idx fired d clean = rw (is_dirty-eq d idx, clean)

poll_entry_dirty :
    (e : RegEntry) (idx fired : ℕ) (d : Device)
    → dirty_bit d idx ≡ 1
    → poll_entry e idx fired d ≡ run_on_change e.on_change fired (clear_bit idx d)
unfolding poll_entry
poll_entry_dirty e idx fired d set = rw (is_dirty-eq d idx, set)

module _ (e : RegEntry) (idx fired : ℕ) (d : Device) (quiet : IsQuiet e.on_change)
    (ok : IsBitmap d.dirty) (below : idx < max_entries) (h : fired < 2 ^ 16) where
  clean-Polled : dirty_bit d idx ≡ 0 → Polled e.on_change idx fired d (fired, d)
  clean-Polled clean = record {
    bitmap = ok;
    bits = λ j. ground (arith, ap (dirty_bit d));
    count = rw clean (omega arith);
  }

  hook-Polled :
      dirty_bit d idx ≡ 1
      → Polled e.on_change idx fired d (run_on_change e.on_change fired (clear_bit idx d))
  hook-Polled set =
      let (same, counted) = run_on_change-quiet e.on_change fired (clear_bit idx d) quiet h in
      record {
        bitmap = rw same (clear_bit-IsBitmap d ok idx below);
        bits = λ j. rw same (dirty_bit-clear_bit d ok idx below j);
        count = rw set counted;
      }

  poll_entry-Polled : Polled e.on_change idx fired d (poll_entry e idx fired d)
  poll_entry-Polled = elim (bit_cases (dirty_bit d idx) (bit-lt _ (idx % 32))) [
    | inl clean ↦ rw (poll_entry_clean e idx fired d clean) (clean-Polled clean)
    | inr set ↦ rw (poll_entry_dirty e idx fired d set) (hook-Polled set)
  ]

-- What the loop leaves behind: the bits of the entries that it passed are clear, and it has run
-- the hooks of those that were dirty.
record Drained (es : List RegEntry) (idx fired : ℕ) (d : Device) (out : ℕ × Device) : Type 0 where
  bitmap : IsBitmap out.1.dirty
  passed : (j : ℕ) → idx ≤ j → j < idx + length es → dirty_bit out.1 j ≡ 0
  before : (j : ℕ) → j < idx → dirty_bit out.1 j ≡ dirty_bit d j
  after : (j : ℕ) → idx + length es ≤ j → dirty_bit out.1 j ≡ dirty_bit d j
  count : out.0 ≡ (fired + pending es idx d) % 2 ^ 16

poll_from-Drained :
    (es : List RegEntry) (idx fired : ℕ) (d : Device)
    → AllQuiet es
    → IsBitmap d.dirty
    → idx + length es ≤ max_entries
    → fired < 2 ^ 16
    → Drained es idx fired d (poll_from es idx fired d)
unfolding poll_from
poll_from-Drained [] idx fired d quiet ok fits h = record {
  bitmap = ok;
  passed = λ j lo hi. absurd (omega arith);
  before = λ j lo. refl;
  after = λ j hi. refl;
  count = omega arith;
}
poll_from-Drained (e ∷ es) idx fired d quiet ok fits h =
    let (fired', d') = poll_entry e idx fired d in
    let one = poll_entry-Polled e idx fired d quiet.0 ok (omega arith) h in
    let rest =
      poll_from-Drained es (idx + 1) fired' d' quiet.1 one.bitmap (omega arith)
        (omega (arith, one.count)) in
    record {
      bitmap = rest.bitmap;
      passed = λ j lo hi. elim (Bool-cases (j == idx)) [
        | inl here ↦ ground (arith, rest.before idx (omega arith), one.bits idx, ap (dirty_bit _))
        | inr later ↦ rest.passed j (ground arith) (omega arith)
      ];
      before = λ j lo. ground (arith, rest.before j (omega arith), one.bits j);
      after = λ j hi. ground (arith, rest.after j (omega arith), one.bits j);
      count = ground (
        arith,
        rest.count,
        one.count,
        pending_congr es (idx + 1) d' d (λ j lo. ground (arith, one.bits j)),
      );
    }

-- When no hook touches the bitmap, `reg_poll` clears the bits of the table's entries and no
-- other, and returns how many of the entries were dirty and had a hook.
pub reg_poll_drains :
    (t : RegTable) (d : Device)
    → t.count ≤ max_entries
    → length t.entries ≡ t.count
    → AllQuiet t.entries
    → IsBitmap d.dirty
    → let (fired, d') = reg_poll (some t) d in
      (fired ≡ pending t.entries 0 d)
      × ((j : ℕ) → dirty_bit d' j ≡ (if ltb j t.count then 0 else dirty_bit d j))
unfolding reg_poll
reg_poll_drains t d small counted quiet ok =
    rw (← counted, take_all t.entries)
      (
        omega (arith, all.count, pending-le t.entries 0 d, counted),
        λ j. elim (Bool-cases (ltb j (length t.entries))) [
          | inl low ↦ rw low (all.passed j (omega arith) (ground arith))
          | inr high ↦ rw high (all.after j (ground arith))
        ],
      )
  where
    all : Drained t.entries 0 0 d (poll_from t.entries 0 0 d)
    all = poll_from-Drained t.entries 0 0 d quiet ok (omega arith) (omega arith)
