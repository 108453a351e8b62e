-- ===== src/Core/Table.antt =====
-- Setting up and searching a table, of src/regtable_core.c: `reg_table_init` and `reg_find`.
pub mod Laws
use regtable.Prelude.{ℕ, zero, suc, ◌+◌, ◌%◌, ◌^◌, Bool, true, false, ◌&&◌, Option, none, some}
use regtable.Prelude.{List, [], ◌∷◌, ltb, ◌==◌, if◌then◌else◌, replicate}
use regtable.Core.Types.{
  Text, RegResult, reg_ok, reg_err_table, Device, RegEntry, EntryRef, RegTable,
}
use regtable.Core.Dirty.{max_entries, dirty_words}

-- The loop over the entries, with `n` of them counted; `none` is too many.
pub count_entries : List RegEntry → ℕ → Option ℕ
count_entries [] n = some n
count_entries (e ∷ es) n = if ltb max_entries (n + 1) then none else count_entries es (n + 1)

-- The handle is set up on success only; so is the bitmap cleared.
abbrev bind_table : ℕ → List RegEntry → Device → Option ℕ → RegResult × Option RegTable × Device
bind_table base entries d none = (reg_err_table, none, d)
bind_table base entries d (some n) = (
  reg_ok,
  some (record { base = base; entries = entries; count = n % 2 ^ 16 }),
  record d { dirty = replicate dirty_words 0 },
)

unfoldable pub reg_table_init : ℕ → List RegEntry → Device → RegResult × Option RegTable × Device
unfolding count_entries
reg_table_init base entries d = bind_table base entries d (count_entries entries 0)

-- `strcmp(a, b) == 0`
unfoldable pub str_eq : Text → Text → Bool
str_eq [] [] = true
str_eq [] (b ∷ bs) = false
str_eq (a ∷ as') [] = false
str_eq (a ∷ as') (b ∷ bs) = a == b && str_eq as' bs

-- The loop, at the entry with address `addr`.
pub find_from : List RegEntry → ℕ → Text → Option EntryRef
unfolding str_eq
find_from [] addr name = none
find_from (e ∷ es) addr name =
    if str_eq e.name name
    then some (record { addr = addr; entry = e })
    else find_from es (addr + 1) name

unfoldable pub reg_find : RegTable → Text → Option EntryRef
unfolding find_from
reg_find t name = find_from t.entries t.base name
