-- ===== src/Modbus/Map/Init.antt =====
-- Which tables `regmb_init` accepts, and what its acceptance gives.
use regtable.Prelude.{ℕ, ◌+◌, ◌^◌, ◌≤◌, ◌≡◌, ◌↔◌, ◌⊎◌}
use regtable.Prelude.{true, false, List, [], ◌∷◌}
use regtable.Prelude.{refl, arith}
use regtable.Core.Types.{reg_ok, reg_err_table, RegEntry, RegTable}
use regtable.Modbus.Map.{RegModbus, entry_words, overlaps, spans_fit, regmb_init}

-- The words of a mapped entry end here.
abbrev pub span_end : RegEntry → ℕ
span_end e = e.modbus_addr + entry_words e.type

-- Two entries share no word: one of them is not mapped, or one ends before the other begins.
abbrev pub IsApart : RegEntry → RegEntry → Type 0
IsApart a b = (b.modbus_addr ≡ 0) ⊎ (span_end b ≤ a.modbus_addr) ⊎ (span_end a ≤ b.modbus_addr)

abbrev pub AllApart : RegEntry → List RegEntry → Type 0
AllApart a [] = Unit
AllApart a (b ∷ bs) = IsApart a b × AllApart a bs

-- Every mapped entry lies in the address space, apart from all the others.
abbrev pub IsMap : List RegEntry → Type 0
IsMap [] = Unit
IsMap (a ∷ es) = ((a.modbus_addr ≡ 0) ⊎ ((span_end a ≤ 2 ^ 16) × AllApart a es)) × IsMap es

overlaps_iff :
    (a : RegEntry) (bs : List RegEntry)
    → (overlaps a.modbus_addr (span_end a) bs ≡ false) ↔ AllApart a bs
unfolding overlaps
overlaps_iff a [] = (λ h. tt, λ h. refl)
overlaps_iff a (b ∷ bs) = ground (arith, overlaps_iff a bs)

spans_fit_iff : (es : List RegEntry) → (spans_fit es ≡ true) ↔ IsMap es
unfolding spans_fit
spans_fit_iff [] = (λ h. tt, λ h. refl)
spans_fit_iff (a ∷ es) = ground (arith, spans_fit_iff es, overlaps_iff a es)

-- `regmb_init` returns REG_OK exactly for a slave address of 1 to 247 and a table whose mapped
-- entries lie in the address space and share no word; then the adapter serves that table under
-- that address, with the high word first. Otherwise it returns REG_ERR_TABLE.
pub regmb_init-ok_iff :
    (mb : RegModbus) (t : RegTable) (addr : ℕ)
    → (((1 ≤ addr) × (addr ≤ 247) × IsMap t.entries)
        × (regmb_init mb t addr ≡ (reg_ok, record { table = t; addr = addr; word_swap = false })))
      ⊎ ((¬ ((1 ≤ addr) × (addr ≤ 247) × IsMap t.entries))
          × ((regmb_init mb t addr).0 ≡ reg_err_table))
unfolding regmb_init
regmb_init-ok_iff mb t addr = ground (arith, spans_fit_iff t.entries)
