-- ===== src/Core/Examples.antt =====
-- Runs of the core, and its theorems at a small table: a temperature with a range, a switch, and a
-- read-only counter.
use regtable.Prelude.{ℕ, zero, suc, ◌<◌, ◌≡◌, ◌≢◌, ◌⊎◌, ◌↔◌, refl, arith, ◌++◌, ◌^◌}
use regtable.Prelude.{none, some, List, [], ◌∷◌, if◌then◌else◌, ltb, ◌==◌}
use regtable.Core.Types.{
  reg_u16, reg_i32, reg_bool, reg_float, reg_ro, reg_rw, reg_ok, reg_err_range, reg_err_type,
  Device, RegEntry, EntryRef, RegTable,
}
use regtable.Core.Memory.{load_raw, store_raw}
use regtable.Core.Dirty.{word_at, reg_mark_dirty, reg_poll}
use regtable.Core.Dirty.Laws.{IsBitmap, dirty_bit}
use regtable.Core.Dirty.Poll.{reg_poll_drains}
use regtable.Core.Float.{isnan, isinf}
use regtable.Core.Raw.{reg_set_raw}
use regtable.Core.Raw.Check.{Allowed, reg_set_raw-ok_iff}
use regtable.Core.Raw.Effect.{IsAt, reg_set_raw_stores, reg_set_raw_refused, reg_set_raw_marks}
use regtable.Core.Table.{reg_find}
use regtable.Core.Schema.{reg_table_schema}
use regtable.Core.Schema.Laws.{serialise, reg_table_schema_changed}

-- A hook that only flips a byte outside the registers.
abbrev pub blink : Device → Device
blink d = record d { mem = λ a. if a == 99 then 1 else d.mem a }

abbrev pub temp : RegEntry
temp = record {
  name = b't' ∷ [];
  ptr = 16;
  type = reg_u16;
  perm = reg_rw;
  modbus_addr = 1;
  min = 10;
  max = 300;
  on_write = none;
  on_read = none;
  on_change = some blink;
  description = none;
}

abbrev pub led : RegEntry
led = record temp { name = b'l' ∷ []; ptr = 18; type = reg_bool; modbus_addr = 2; min = 0; max = 0 }

abbrev pub count : RegEntry
count = record temp {
  name = b'c' ∷ [];
  ptr = 20;
  type = reg_i32;
  perm = reg_ro;
  modbus_addr = 3;
  min = 0;
  max = 0;
}

abbrev pub table : RegTable
table = record { base = 1000; entries = temp ∷ led ∷ count ∷ []; count = 3 }

abbrev pub temp_ref : EntryRef
temp_ref = record { addr = 1000; entry = temp }

abbrev pub fresh : Device
fresh = record { mem = λ a. 0; dirty = 0 ∷ 0 ∷ [] }

write_temp : (reg_set_raw (some table) temp_ref 258 fresh).0 ≡ reg_ok
unfolding reg_set_raw
write_temp = refl

too_hot : (reg_set_raw (some table) temp_ref 301 fresh).0 ≡ reg_err_range
unfolding reg_set_raw
too_hot = refl

-- 0x7fc00000 is a NaN
not_a_number :
    (reg_set_raw none
      (record { addr = 0; entry = record temp { type = reg_float } })
      0x7fc00000
      fresh).0
    ≡ reg_err_type
unfolding reg_set_raw isnan isinf
not_a_number = refl

marked : (reg_set_raw (some table) temp_ref 258 fresh).1.dirty ≡ 1 ∷ 0 ∷ []
unfolding reg_set_raw reg_mark_dirty load_raw store_raw
marked = refl

polled :
    let (fired, d) = reg_poll (some table) (record fresh { dirty = 5 ∷ 0 ∷ [] }) in
    (fired ≡ 2) × (d.dirty ≡ 0 ∷ 0 ∷ [])
unfolding reg_poll
polled = (refl, refl)

found : reg_find table (b'l' ∷ []) ≡ some (record { addr = 1001; entry = led })
unfolding reg_find
found = refl

fresh-IsBitmap : IsBitmap (0 ∷ 0 ∷ [])
fresh-IsBitmap = record { full = refl; fits = zeros }
  where
    zeros : (i : ℕ) → word_at (0 ∷ 0 ∷ []) i < 2 ^ 32
    zeros zero = omega arith
    zeros (suc zero) = omega arith
    zeros (suc (suc i)) = omega arith

temp-IsAt : IsAt table temp_ref 0
temp-IsAt = record { small = omega arith; inside = omega arith; here = refl }

reg_set_raw-ok_iff_example :
    ((reg_set_raw (some table) temp_ref 258 fresh).0 ≡ reg_ok)
    ↔ Allowed (some table) temp_ref 258 fresh
reg_set_raw-ok_iff_example = reg_set_raw-ok_iff (some table) temp_ref 258 fresh (omega arith)

reg_set_raw_stores_example :
    let d = (reg_set_raw (some table) temp_ref 258 fresh).1 in
    (load_raw temp d.mem ≡ 258) × (d.mem 18 ≡ 0)
reg_set_raw_stores_example =
    reg_set_raw_stores (some table) temp_ref 258 fresh 18 (omega arith) (omega arith) write_temp

refused : (reg_set_raw (some table) temp_ref 301 fresh).0 ≢ reg_ok
refused h = cc too_hot

reg_set_raw_refused_example :
    ((reg_set_raw (some table) temp_ref 301 fresh).1 ≡ fresh)
    ⊎ ((reg_set_raw (some table) temp_ref 301 fresh).1 ≡ fresh)
reg_set_raw_refused_example =
    reg_set_raw_refused (some table) temp_ref 301 fresh (omega arith) refused

reg_set_raw_marks_example : dirty_bit (reg_set_raw (some table) temp_ref 258 fresh).1 0 ≡ 1
unfolding load_raw
reg_set_raw_marks_example =
    reg_set_raw_marks table temp_ref 0 258 fresh temp-IsAt fresh-IsBitmap (omega arith) write_temp 0

one_dirty-IsBitmap : IsBitmap (5 ∷ 0 ∷ [])
one_dirty-IsBitmap = record { full = refl; fits = small }
  where
    small : (i : ℕ) → word_at (5 ∷ 0 ∷ []) i < 2 ^ 32
    small zero = omega arith
    small (suc zero) = omega arith
    small (suc (suc i)) = omega arith

abbrev half_dirty : Device
half_dirty = record fresh { dirty = 5 ∷ 0 ∷ [] }

reg_poll_drains_example :
    let (fired, d) = reg_poll (some table) half_dirty in
    (fired ≡ 2) × ((j : ℕ) → dirty_bit d j ≡ (if ltb j 3 then 0 else dirty_bit half_dirty j))
reg_poll_drains_example =
    reg_poll_drains table half_dirty (omega arith) refl
      ((λ d. refl), ((λ d. refl), ((λ d. refl), tt))) one_dirty-IsBitmap

-- The counter made writable.
abbrev loose : RegTable
loose = record table { entries = temp ∷ led ∷ record count { perm = reg_rw } ∷ [] }

abbrev head_bytes : List ℕ
head_bytes = serialise (temp ∷ led ∷ []) ++ (b'c' ∷ 0 ∷ 5 ∷ [])

abbrev tail_bytes : List ℕ
tail_bytes = 0 ∷ 0 ∷ 0 ∷ 0 ∷ 0 ∷ 0 ∷ 0 ∷ 0 ∷ 3 ∷ 0 ∷ 0 ∷ []

reg_table_schema_changed_example : reg_table_schema (some table) ≢ reg_table_schema (some loose)
reg_table_schema_changed_example =
    reg_table_schema_changed table loose head_bytes tail_bytes 0 1 refl refl (omega arith)
      (omega arith) (omega arith) (omega arith)
