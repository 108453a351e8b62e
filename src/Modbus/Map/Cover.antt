-- ===== src/Modbus/Map/Cover.antt =====
-- Which requests `span_covered` lets through, and what `entry_at` finds.
use regtable.Prelude.{ℕ, zero, suc, ◌+◌, ◌%◌, ◌^◌, ◌≤◌, ◌<◌, ◌≡◌, ◌↔◌, inl, inr}
use regtable.Prelude.{true, false, none, some, ltb, ◌==◌}
use regtable.Prelude.{arith, sym, ◌∙◌, Bool-cases, Option-cases}
use regtable.Core.Types.{RegType, reg_u32, reg_i32, reg_float, EntryRef, RegTable}
use regtable.Modbus.Map.{entry_words, entry_at, covered, span_covered}

pub entry_words_bounds : (ty : RegType) → (1 ≤ entry_words ty) × (entry_words ty ≤ 2)
entry_words_bounds reg_u32 = omega arith
entry_words_bounds reg_i32 = omega arith
entry_words_bounds reg_float = omega arith
entry_words_bounds _ = omega arith

-- The words from `addr` up to `end` are laid with whole entries, each at its own address.
pub data Tiled (t : RegTable) (end : ℕ) : ℕ → Type 0 where
  done : {addr : ℕ} → addr ≡ end → Tiled t end addr
  tile :
      {addr : ℕ} (r : EntryRef)
      → addr < end
      → entry_at t (addr % 2 ^ 16) ≡ some r
      → Tiled t end (addr + entry_words r.entry.type)
      → Tiled t end addr

pub Tiled-le : {t : RegTable} {end addr : ℕ} → Tiled t end addr → addr ≤ end
Tiled-le (done e) = omega arith
Tiled-le (tile r lt e rest) = omega arith

covered_stop :
    (t : RegTable) (fuel addr end : ℕ)
    → ltb addr end ≡ false
    → covered (suc fuel) t addr end ≡ (addr == end)
unfolding covered
covered_stop t fuel addr end h = rw h

covered_gap :
    (t : RegTable) (fuel addr end : ℕ)
    → ltb addr end ≡ true
    → entry_at t (addr % 2 ^ 16) ≡ none
    → covered (suc fuel) t addr end ≡ false
unfolding covered
covered_gap t fuel addr end h e = rw (h, e)

covered_step :
    (t : RegTable) (fuel addr end : ℕ) (r : EntryRef)
    → ltb addr end ≡ true
    → entry_at t (addr % 2 ^ 16) ≡ some r
    → covered (suc fuel) t addr end ≡ covered fuel t (addr + entry_words r.entry.type) end
unfolding covered
covered_step t fuel addr end r h e = rw (h, e)

covered-Tiled :
    (t : RegTable) (fuel addr end : ℕ) → covered fuel t addr end ≡ true → Tiled t end addr
unfolding covered
covered-Tiled t zero addr end h = cc
covered-Tiled t (suc fuel) addr end h = elim (Bool-cases (ltb addr end)) [
  | inl more ↦ elim (Option-cases (entry_at t (addr % 2 ^ 16))) [
    | inl gap ↦ cc (covered_gap t fuel addr end more gap)
    | inr (r, e) ↦ tile r (ground arith) e (
        covered-Tiled t fuel (addr + entry_words r.entry.type) end
          (sym (covered_step t fuel addr end r more e) ∙ h))
  ]
  | inr stop ↦ done (ground (arith, covered_stop t fuel addr end stop))
]

Tiled-covered :
    (t : RegTable) (fuel addr end : ℕ)
    → end < addr + fuel
    → Tiled t end addr
    → covered fuel t addr end ≡ true
unfolding covered
Tiled-covered t zero addr end enough (done e) = absurd (omega arith)
Tiled-covered t zero addr end enough (tile r lt e rest) = absurd (omega arith)
Tiled-covered t (suc fuel) addr end enough (done e) = ground arith
Tiled-covered t (suc fuel) addr end enough (tile r lt e rest) =
    covered_step t fuel addr end r (ground arith) e
    ∙ Tiled-covered t fuel (addr + entry_words r.entry.type) end
        (omega (arith, entry_words_bounds r.entry.type)) rest

-- `span_covered` is true exactly when whole entries, with no gap and none sticking out, make up
-- the `qty` words from `start` on. (So its loop always ends, within the fuel.)
pub span_covered_iff :
    (t : RegTable) (start qty : ℕ) → (span_covered t start qty ≡ true) ↔ Tiled t (start + qty) start
unfolding span_covered
span_covered_iff t start qty = (
  covered-Tiled t (qty + 1) start (start + qty),
  Tiled-covered t (qty + 1) start (start + qty) (omega arith),
)
