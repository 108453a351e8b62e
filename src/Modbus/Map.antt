-- ===== src/Modbus/Map.antt =====
-- The register map of src/regtable_modbus.c: the words of an entry, the entry at a word address,
-- the cover of a request, and `regmb_init`.
pub mod Cover
pub mod Listed
pub mod Init
use regtable.Prelude.{ℕ, zero, suc, ◌+◌, ◌*◌, ◌%◌, ◌^◌, Bool, true, false, not, ◌&&◌, ◌||◌}
use regtable.Prelude.{Option, none, some, List, [], ◌∷◌, ltb, ◌==◌, if◌then◌else◌}
use regtable.Core.Types.{
  RegType, reg_u32, reg_i32, reg_float, RegResult, reg_ok, reg_err_table, RegEntry, EntryRef,
  RegTable,
}

-- `RegModbus`
pub record RegModbus : Type 0 where
  pub table : RegTable
  pub addr : ℕ
  pub word_swap : Bool

-- It looks at the type of the entry alone.
abbrev pub entry_words : RegType → ℕ
entry_words reg_u32 = 2
entry_words reg_i32 = 2
entry_words reg_float = 2
entry_words _ = 1

-- The loop over the entries, the first of them at `here`.
pub entry_from : List RegEntry → ℕ → ℕ → Option EntryRef
entry_from [] here addr = none
entry_from (e ∷ es) here addr =
    if not (e.modbus_addr == 0) && e.modbus_addr == addr
    then some (record { addr = here; entry = e })
    else entry_from es (here + 1) addr

unfoldable pub entry_at : RegTable → ℕ → Option EntryRef
unfolding entry_from
entry_at t addr = entry_from t.entries t.base addr

-- `if (!e) return false;`, then the rest of the round.
abbrev pub advance : Option EntryRef → (EntryRef → Bool) → Bool
advance none next = false
advance (some r) next = next r

-- The loop `while (addr < end)`. Every round adds a word or two, so that one round of fuel for
-- each word, and one for the last test, are enough.
pub covered : ℕ → RegTable → ℕ → ℕ → Bool
covered zero t addr end = false
covered (suc fuel) t addr end =
    if ltb addr end
    then advance (entry_at t (addr % 2 ^ 16))
        (λ r. covered fuel t (addr + entry_words r.entry.type) end)
    else addr == end

unfoldable pub span_covered : RegTable → ℕ → ℕ → Bool
unfolding covered entry_at
span_covered t start qty = covered (qty + 1) t start (start + qty)

-- Does a mapped entry of the list overlap the words `a0 ≤ w < a1`?
pub overlaps : ℕ → ℕ → List RegEntry → Bool
overlaps a0 a1 [] = false
overlaps a0 a1 (b ∷ bs) =
    not (b.modbus_addr == 0) && ltb a0 (b.modbus_addr + entry_words b.type) && ltb b.modbus_addr a1
    || overlaps a0 a1 bs

-- The two loops of `regmb_init`: are the mapped spans in the address space and apart?
pub spans_fit : List RegEntry → Bool
unfolding overlaps
spans_fit [] = true
spans_fit (a ∷ es) =
    let rest = spans_fit es in
    let a1 = a.modbus_addr + entry_words a.type in
    if a.modbus_addr == 0
    then rest
    else if ltb 0x10000 a1
    then false
    else if overlaps a.modbus_addr a1 es
    then false
    else rest

-- `mb` is what the adapter held before; an address out of range leaves it as it was.
unfoldable pub regmb_init : RegModbus → RegTable → ℕ → RegResult × RegModbus
unfolding spans_fit
regmb_init mb table addr =
    if ltb addr 1 || ltb 247 addr
    then (reg_err_table, mb)
    else let bound : RegModbus = record { table = table; addr = addr; word_swap = false } in
      if spans_fit table.entries then (reg_ok, bound) else (reg_err_table, bound)
