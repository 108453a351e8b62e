-- ===== src/Core/Raw.antt =====
-- The raw path of src/regtable_core.c: `reg_set_raw` and `reg_get_raw`, through which every
-- adapter goes.
pub mod Check
pub mod Effect
use regtable.Prelude.{ℕ, ◌+◌, Bool, true, false, not, ◌&&◌, ◌||◌, ◌^◌, ◌-◌}
use regtable.Prelude.{Option, none, some, ltb, ◌==◌, if◌then◌else◌}
use regtable.Prelude.Int.{ℤ, pos, negsuc, ltb_ℤ}
use regtable.Core.Types.{
  RegType, reg_u8, reg_u16, reg_u32, reg_i8, reg_i16, reg_i32, reg_float, reg_bool, RegPerm, reg_ro,
  reg_rw, RegResult, reg_ok, reg_err_readonly, reg_err_type, reg_err_range, reg_err_rejected,
  Device, RegEntry, EntryRef, RegTable,
}
use regtable.Core.Float.{isnan, isinf, float_lt}
use regtable.Core.Memory.{load_raw, store_raw}
use regtable.Core.Dirty.{reg_mark_dirty}

-- `(int32_t)raw`
abbrev pub to_int32 : ℕ → ℤ
to_int32 w = if ltb w (2 ^ 31) then pos w else negsuc (2 ^ 32 - w - 1)

pub has_range : RegEntry → Bool
has_range e = not (e.min == 0 && e.max == 0)

abbrev pub is_ro : RegPerm → Bool
is_ro reg_ro = true
is_ro reg_rw = false

-- The value to store, or the result code with which the write is refused.
pub data Verdict : Type 0 where
  pass : ℕ → Verdict
  refuse : RegResult → Verdict

-- The switch over the type: each type's own domain.
pub check_domain : RegType → ℕ → Verdict
check_domain reg_u8 raw = if ltb 0xFF raw then refuse reg_err_range else pass raw
check_domain reg_u16 raw = if ltb 0xFFFF raw then refuse reg_err_range else pass raw
check_domain reg_i8 raw =
    if ltb_ℤ (to_int32 raw) (negsuc 127) || ltb_ℤ (pos 127) (to_int32 raw)
    then refuse reg_err_range
    else pass raw
check_domain reg_i16 raw =
    if ltb_ℤ (to_int32 raw) (negsuc 32767) || ltb_ℤ (pos 32767) (to_int32 raw)
    then refuse reg_err_range
    else pass raw
check_domain reg_bool raw = pass (if raw == 0 then 0 else 1)
check_domain reg_float raw = if isnan raw || isinf raw then refuse reg_err_type else pass raw
check_domain reg_u32 raw = pass raw
check_domain reg_i32 raw = pass raw

-- The tests of the limits, in the domain of the type.
pub beyond_limits : RegType → ℕ → ℕ → ℕ → Bool
beyond_limits reg_float min max raw = float_lt raw min || float_lt max raw
beyond_limits reg_i8 min max raw =
    ltb_ℤ (to_int32 raw) (to_int32 min) || ltb_ℤ (to_int32 max) (to_int32 raw)
beyond_limits reg_i16 min max raw =
    ltb_ℤ (to_int32 raw) (to_int32 min) || ltb_ℤ (to_int32 max) (to_int32 raw)
beyond_limits reg_i32 min max raw =
    ltb_ℤ (to_int32 raw) (to_int32 min) || ltb_ℤ (to_int32 max) (to_int32 raw)
beyond_limits reg_bool min max raw = false
beyond_limits reg_u8 min max raw = ltb raw min || ltb max raw
beyond_limits reg_u16 min max raw = ltb raw min || ltb max raw
beyond_limits reg_u32 min max raw = ltb raw min || ltb max raw

pub out_of_range : RegEntry → ℕ → Bool
unfolding has_range beyond_limits
out_of_range e raw = has_range e && beyond_limits e.type e.min e.max raw

-- The command check, `true` if there is none.
abbrev pub ask : Option (ℕ → Device → Bool × Device) → ℕ → Device → Bool × Device
ask none raw d = (true, d)
ask (some hook) raw d = hook raw d

-- The store, and the mark if the value changed.
pub commit : Option RegTable → EntryRef → ℕ → Device → Device
commit t r raw d =
    let old = load_raw r.entry d.mem in
    let d' = record d { mem = store_raw r.entry raw d.mem } in
    if old == raw then d' else reg_mark_dirty t r d'

-- From the range check on, with the value that the domain check passed.
pub write_checked : Option RegTable → EntryRef → ℕ → Device → RegResult × Device
unfolding out_of_range commit
write_checked t r raw d =
    if out_of_range r.entry raw
    then (reg_err_range, d)
    else let (allowed, d') = ask r.entry.on_write raw d in
      if allowed then (reg_ok, commit t r raw d') else (reg_err_rejected, d')

abbrev settle : Option RegTable → EntryRef → Verdict → Device → RegResult × Device
settle t r (pass raw) d = write_checked t r raw d
settle t r (refuse why) d = (why, d)

unfoldable pub reg_set_raw : Option RegTable → EntryRef → ℕ → Device → RegResult × Device
unfolding check_domain write_checked
reg_set_raw t r raw d =
    if is_ro r.entry.perm
    then (reg_err_readonly, d)
    else settle t r (check_domain r.entry.type raw) d

-- `on_read`, if there is one.
unfoldable pub refresh : Option (Device → Device) → Device → Device
refresh none d = d
refresh (some hook) d = hook d

-- The value that goes through `raw_out`; the result code is always REG_OK.
unfoldable pub reg_get_raw : RegEntry → Device → ℕ × Device
unfolding refresh
reg_get_raw e d = let d' = refresh e.on_read d in (load_raw e d'.mem, d')
