-- ===== src/Core/Table/Laws.antt =====
-- When a table is accepted, and which entry a name finds.
use regtable.Prelude.{ℕ, ◌+◌, ◌≤◌, ◌≡◌, ◌≢◌, ◌⊎◌, inl, inr, refl, arith, ap, sym, ◌∙◌}
use regtable.Prelude.{true, Option, none, some, ◌↔◌}
use regtable.Prelude.{List, [], ◌∷◌, ltb, leb, if◌then◌else◌, replicate, length, Bool-cases}
use regtable.Core.Types.{Text, reg_ok, reg_err_table, Device, RegEntry, EntryRef, RegTable}
use regtable.Core.Dirty.{max_entries, dirty_words}
use regtable.Core.Raw.Effect.{AllPlain}
use regtable.Core.Table.{count_entries, reg_table_init, str_eq, find_from, reg_find}

count_entries_lem :
    (es : List RegEntry) (n : ℕ)
    → n ≤ max_entries
    → count_entries es n ≡ (if leb (n + length es) max_entries then some (n + length es) else none)
unfolding count_entries
count_entries_lem [] n h = ground arith
count_entries_lem (e ∷ es) n h = elim (Bool-cases (ltb max_entries (n + 1))) [
  | inl over ↦ rw over (ground arith)
  | inr room ↦ rw (room, count_entries_lem es (n + 1) (ground arith)) (ground arith)
]

-- `reg_table_init` accepts the tables of at most REGTABLE_MAX_ENTRIES entries, sets their count
-- and clears the bitmap; a larger table leaves the handle unbound and the bitmap as it was.
pub reg_table_init_lem :
    (base : ℕ) (es : List RegEntry) (d : Device)
    → reg_table_init base es d ≡ (
        if leb (length es) max_entries
        then (
          reg_ok,
          some (record { base = base; entries = es; count = length es }),
          record d { dirty = replicate dirty_words 0 },
        )
        else (reg_err_table, none, d))
unfolding reg_table_init
reg_table_init_lem base es d = rw (count_entries_lem es 0 (omega arith)) (ground arith)

pub str_eq_iff : (a b : Text) → (str_eq a b ≡ true) ↔ (a ≡ b)
unfolding str_eq
str_eq_iff [] [] = (λ h. refl, λ h. refl)
str_eq_iff [] (b ∷ bs) = (λ h. cc, λ h. cc)
str_eq_iff (a ∷ as') [] = (λ h. cc, λ h. cc)
str_eq_iff (a ∷ as') (b ∷ bs) = ground (arith, str_eq_iff as' bs)

-- No entry of the list has the name.
abbrev pub Lacks : List RegEntry → Text → Type 0
Lacks [] name = Unit
Lacks (e ∷ es) name = (e.name ≢ name) × Lacks es name

-- The first entry with the name, and where it lies from `addr` on.
abbrev pub IsFirst : List RegEntry → ℕ → Text → EntryRef → Type 0
IsFirst [] addr name r = ⊥
IsFirst (e ∷ es) addr name r =
    ((e.name ≡ name) × (r ≡ record { addr = addr; entry = e }))
    ⊎ ((e.name ≢ name) × IsFirst es (addr + 1) name r)

abbrev pub Found : List RegEntry → ℕ → Text → Option EntryRef → Type 0
Found es addr name none = Lacks es name
Found es addr name (some r) = IsFirst es addr name r

Found-cons :
    (e : RegEntry) (es : List RegEntry) (addr : ℕ) (name : Text) (o : Option EntryRef)
    → e.name ≢ name
    → Found es (addr + 1) name o
    → Found (e ∷ es) addr name o
Found-cons e es addr name none ne h = (ne, h)
Found-cons e es addr name (some r) ne h = inr (ne, h)

find_from-Found :
    (es : List RegEntry) (addr : ℕ) (name : Text) → Found es addr name (find_from es addr name)
unfolding find_from
find_from-Found [] addr name = tt
find_from-Found (e ∷ es) addr name = elim (Bool-cases (str_eq e.name name)) [
  | inl same ↦ rw same (inl ((str_eq_iff e.name name).0 same, refl))
  | inr differs ↦ rw differs (
      Found-cons e es addr name _ (λ p. cc ((str_eq_iff e.name name).1 p))
        (find_from-Found es (addr + 1) name))
]

-- `reg_find` returns the first entry that has the name, with its place in the table; it returns
-- NULL only if no entry has it.
pub reg_find-Found : (t : RegTable) (name : Text) → Found t.entries t.base name (reg_find t name)
unfolding reg_find
reg_find-Found t name = find_from-Found t.entries t.base name

entry_or : RegEntry → Option EntryRef → RegEntry
entry_or e none = e
entry_or e (some r) = r.entry

found_plain :
    (a : RegEntry) (addr : ℕ) (r : EntryRef)
    → a.on_read ≡ none
    → ◌≡◌ {A = Option EntryRef} (some (record { addr = addr; entry = a })) (some r)
    → r.entry.on_read ≡ none
unfolding entry_or
found_plain a addr r plain e = ap (λ o. (entry_or a o).on_read) (sym e) ∙ plain

find_from-plain :
    (es : List RegEntry) (addr : ℕ) (name : Text) (r : EntryRef)
    → AllPlain es
    → find_from es addr name ≡ some r
    → r.entry.on_read ≡ none
unfolding find_from
find_from-plain [] addr name r plain e = cc
find_from-plain (a ∷ es) addr name r plain e = elim (Bool-cases (str_eq a.name name)) [
  | inl same ↦
      let here : some (record { addr = addr; entry = a }) ≡ some r = sym (rw same) ∙ e in
      found_plain a addr r plain.0 here
  | inr differs ↦ find_from-plain es (addr + 1) name r plain.1 (sym (rw differs) ∙ e)
]

-- An entry that is found is one of the table, with no `on_read` if none has one.
pub reg_find-plain :
    (t : RegTable) (name : Text) (r : EntryRef)
    → AllPlain t.entries
    → reg_find t name ≡ some r
    → r.entry.on_read ≡ none
unfolding reg_find
reg_find-plain t name r plain e = find_from-plain t.entries t.base name r plain e
