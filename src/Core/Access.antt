-- ===== src/Core/Access.antt =====
-- The path on which an adapter reaches the variables: the calls of `reg_get_raw` and `reg_set_raw`
-- of src/regtable_core.c, for entries of its table and 32-bit values.
pub mod Keeps
pub mod Hooks
pub mod Sound
use regtable.Prelude.{ℕ, zero, suc, ◌+◌, ◌^◌, ◌<◌, ◌≡◌, refl, arith, ap, inl, inr}
use regtable.Prelude.{Option, none, some, List, [], ◌∷◌, get_elem?, ◌>>=◌}
use regtable.Core.Types.{RegResult, Text, Device, RegEntry, EntryRef, RegTable}
use regtable.Core.Raw.{reg_set_raw, reg_get_raw}
use regtable.Core.Table.{reg_find}
use regtable.Core.Table.Laws.{IsFirst, Found, reg_find-Found}

-- The entry stands in the table.
abbrev pub Listed : List RegEntry → RegEntry → Type 0
Listed es e = (i : ℕ) × (get_elem? es i ≡ some e)

-- Every entry of the second list stands in the first.
abbrev pub AllListed : List RegEntry → List RegEntry → Type 0
AllListed all [] = Unit
AllListed all (e ∷ es) = Listed all e × AllListed all es

AllListed-cons : (a : RegEntry) (all es : List RegEntry) → AllListed all es → AllListed (a ∷ all) es
AllListed-cons a all [] h = tt
AllListed-cons a all (e ∷ es) h = ((suc h.0.0, h.0.1), AllListed-cons a all es h.1)

pub AllListed-self : (es : List RegEntry) → AllListed es es
AllListed-self [] = tt
AllListed-self (e ∷ es) = ((0, refl), AllListed-cons e es es (AllListed-self es))

-- The reference points to an entry of the list, the first of which lies at `base`.
abbrev pub IsEntry : List RegEntry → ℕ → EntryRef → Type 0
IsEntry es base r = (i : ℕ) × (get_elem? es i ≡ some r.entry) × (r.addr ≡ base + i)

-- From `d`, calls of `reg_get_raw` and `reg_set_raw` and nothing else lead to the second device.
pub data Accesses (t : RegTable) (d : Device) : Device → Type 0 where
  start : Accesses t d d
  read :
      {u : Device} (e : RegEntry)
      → Accesses t d u
      → Listed t.entries e
      → Accesses t d (reg_get_raw e u).1
  write :
      {u : Device} (r : EntryRef) (raw : ℕ)
      → Accesses t d u
      → IsEntry t.entries t.base r
      → raw < 2 ^ 32
      → Accesses t d (reg_set_raw (some t) r raw u).1

pub Accesses-join :
    {t : RegTable} {a b c : Device} → Accesses t a b → Accesses t b c → Accesses t a c
Accesses-join first start = first
Accesses-join first (read e before listed) = read e (Accesses-join first before) listed
Accesses-join first (write r raw before at h) = write r raw (Accesses-join first before) at h

pub IsEntry-Listed :
    (es : List RegEntry) (base : ℕ) (r : EntryRef) → IsEntry es base r → Listed es r.entry
IsEntry-Listed es base r at = (at.0, at.1)

-- One entry further down.
pub IsEntry-cons :
    (e : RegEntry) (es : List RegEntry) (base : ℕ) (r : EntryRef)
    → IsEntry es (base + 1) r
    → IsEntry (e ∷ es) base r
IsEntry-cons e es base r at = (suc at.0, at.1, omega (arith, at.2))

-- What a computation gives, if it gives anything, has the property.
abbrev pub Each {ℓ κ} : {A : Type ℓ} → (A → Type κ) → Option A → Type κ
Each P none = Unit
Each P (some a) = P a

pub Each-bind {ℓ κ ι ρ} :
    {A : Type ℓ} {B : Type κ} (Q : A → Type ι) (P : B → Type ρ) (o : Option A) (f : A → Option B)
    → Each Q o
    → ((a : A) → Q a → Each P (f a))
    → Each P (o >>= f)
Each-bind Q P none f q p = tt
Each-bind Q P (some a) f q p = p a q

pub Each-map {ℓ κ ι} :
    {A : Type ℓ} (P : A → Type κ) (Q : A → Type ι) (o : Option A)
    → ((a : A) → P a → Q a)
    → Each P o
    → Each Q o
Each-map P Q none f h = tt
Each-map P Q (some a) f h = f a h

abbrev pub Any {ℓ} : {A : Type ℓ} → A → Type 0
Any a = Unit

pub Each-Any {ℓ} : {A : Type ℓ} (o : Option A) → Each Any o
Each-Any none = tt
Each-Any (some a) = tt

IsFirst-IsEntry :
    (es : List RegEntry) (base : ℕ) (name : Text) (r : EntryRef)
    → IsFirst es base name r
    → IsEntry es base r
IsFirst-IsEntry [] base name r h = absurd h
IsFirst-IsEntry (e ∷ es) base name r (inl (named, is)) =
    (0, cc is, omega (arith, ap (λ x. x.addr) is))
IsFirst-IsEntry (e ∷ es) base name r (inr (other, h)) =
    IsEntry-cons e es base r (IsFirst-IsEntry es (base + 1) name r h)

Found-IsEntry :
    (es : List RegEntry) (base : ℕ) (name : Text) (o : Option EntryRef)
    → Found es base name o
    → Each (IsEntry es base) o
Found-IsEntry es base name none h = tt
Found-IsEntry es base name (some r) h = IsFirst-IsEntry es base name r h

-- `reg_find` gives entries of the table.
pub reg_find-IsEntry :
    (t : RegTable) (name : Text) → Each (IsEntry t.entries t.base) (reg_find t name)
reg_find-IsEntry t name =
    Found-IsEntry t.entries t.base name (reg_find t name) (reg_find-Found t name)
