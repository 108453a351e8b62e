-- ===== src/Modbus/Map/Listed.antt =====
-- Where the entries stand that `entry_at` of src/regtable_modbus.c finds.
use regtable.Prelude.{ℕ, ◌+◌, not, ◌&&◌, ◌==◌, refl, arith, List, [], ◌∷◌, if_cases}
use regtable.Core.Types.{RegEntry, RegTable}
use regtable.Core.Access.{IsEntry, IsEntry-cons, Each, Each-map}
use regtable.Modbus.Map.{entry_from, entry_at}

entry_from-IsEntry :
    (es : List RegEntry) (base addr : ℕ) → Each (IsEntry es base) (entry_from es base addr)
unfolding entry_from
entry_from-IsEntry [] base addr = tt
entry_from-IsEntry (e ∷ es) base addr =
    if_cases (Each (IsEntry (e ∷ es) base)) (not (e.modbus_addr == 0) && e.modbus_addr == addr) _ _
      (λ here. (0, refl, omega arith))
      (λ below.
        Each-map (IsEntry es (base + 1)) (IsEntry (e ∷ es) base) _ (IsEntry-cons e es base)
          (entry_from-IsEntry es (base + 1) addr))

pub entry_at-IsEntry : (t : RegTable) (addr : ℕ) → Each (IsEntry t.entries t.base) (entry_at t addr)
unfolding entry_at
entry_at-IsEntry t addr = entry_from-IsEntry t.entries t.base addr
