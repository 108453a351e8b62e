-- ===== src/Core/Access/Sound.antt =====
-- The values of the variables under accesses, of src/regtable_core.c.
use regtable.Prelude.{ℕ, zero, suc, ◌≡◌, ◌≢◌, ◌⊎◌, ◌∙◌, ap, sym, inl, inr}
use regtable.Prelude.{some, List, [], ◌∷◌, get_elem?}
use std.Path.{subst}
use regtable.Core.Types.{RegType, reg_bool, reg_ro, reg_rw, Device, RegEntry, EntryRef, RegTable}
use regtable.Core.Memory.{load_raw, store_raw}
use regtable.Core.Memory.Laws.{
  load_raw-store_raw, IsDisjoint, IsDisjoint-sym, load_raw-store_raw_ne,
}
use regtable.Core.Dirty.Laws.{mem-clear_bit}
use regtable.Core.Raw.{commit}
use regtable.Core.Raw.Check.{Admissible, stored}
use regtable.Core.Raw.Effect.{asked_device, mem-commit, stored-InDomain}
use regtable.Core.Access.{Listed}
use regtable.Core.Access.Keeps.{IsValue, IsStable}

-- No two entries share a byte of their variables.
abbrev AllDisjoint : RegEntry → List RegEntry → Type 0
AllDisjoint a [] = Unit
AllDisjoint a (b ∷ bs) = IsDisjoint a b × AllDisjoint a bs

abbrev pub IsLaid : List RegEntry → Type 0
IsLaid [] = Unit
IsLaid (e ∷ es) = AllDisjoint e es × IsLaid es

AllDisjoint-at :
    (a b : RegEntry) (es : List RegEntry) (i : ℕ)
    → AllDisjoint a es
    → get_elem? es i ≡ some b
    → IsDisjoint a b
AllDisjoint-at a b [] i all is = cc
AllDisjoint-at a b (e ∷ es) zero all is = subst (IsDisjoint a) (let x : e ≡ b = cc is in x) all.0
AllDisjoint-at a b (e ∷ es) (suc i) all is = AllDisjoint-at a b es i all.1 is

-- Two entries of the list are one, or share no byte.
pub IsLaid-at :
    (es : List RegEntry) (a b : RegEntry) (i j : ℕ)
    → IsLaid es
    → get_elem? es i ≡ some a
    → get_elem? es j ≡ some b
    → (a ≡ b) ⊎ IsDisjoint a b
IsLaid-at [] a b i j laid here there = cc
IsLaid-at (e ∷ es) a b zero zero laid here there = inl (cc (here, there))
IsLaid-at (e ∷ es) a b zero (suc j) laid here there =
    let at : e ≡ a = cc here in
    inr (subst (λ (x : RegEntry). IsDisjoint x b) at (AllDisjoint-at e b es j laid.0 there))
IsLaid-at (e ∷ es) a b (suc i) zero laid here there =
    let at : e ≡ b = cc there in
    inr (
      IsDisjoint-sym b a
        (subst (λ (x : RegEntry). IsDisjoint x a) at (AllDisjoint-at e a es i laid.0 here)))
IsLaid-at (e ∷ es) a b (suc i) (suc j) laid here there = IsLaid-at es a b i j laid.1 here there

-- Every writable variable holds a value of its type within the limits of its entry.
abbrev pub IsValid : RegTable → Device → Type 0
IsValid t d = (e : RegEntry) → Listed t.entries e → e.perm ≡ reg_rw → IsValue e (load_raw e d.mem)

-- Every read-only variable holds what it held on the first device.
abbrev pub IsUntouched : RegTable → Device → Device → Type 0
IsUntouched t d0 d =
    (e : RegEntry) → Listed t.entries e → e.perm ≡ reg_ro → load_raw e d.mem ≡ load_raw e d0.mem

Admissible-stored : (ty : RegType) (raw : ℕ) → Admissible ty raw → Admissible ty (stored ty raw)
Admissible-stored reg_bool raw h = tt
Admissible-stored _ raw h = h

module _ (t : RegTable) (laid : IsLaid t.entries) where
  -- A store changes the value of no other entry.
  pub commit_other :
      (e : RegEntry) (r : EntryRef) (v : ℕ) (d : Device)
      → IsDisjoint e r.entry
      → load_raw e (commit (some t) r v d).mem ≡ load_raw e d.mem
  commit_other e r v d apart =
      ap (load_raw e) (mem-commit r v d (some t)) ∙ load_raw-store_raw_ne e r.entry d.mem v apart

  pub IsValid-IsStable : IsStable t (IsValid t)
  IsValid-IsStable = record {
    stores = λ r raw d at h (writable, good, near, _) before now e listed writes.
        let v = stored r.entry.type raw in
        let d' = asked_device (some t) r raw d in
        elim (IsLaid-at t.entries e r.entry listed.0 at.0 laid listed.1 at.1) [
          | inl same ↦
              let held : load_raw r.entry (commit (some t) r v d').mem ≡ v =
                ap (load_raw r.entry) (mem-commit r v d' (some t))
                ∙ load_raw-store_raw r.entry d'.mem v (stored-InDomain r.entry.type raw h good) in
              subst (λ (x : RegEntry). IsValue x (load_raw x (commit (some t) r v d').mem))
                (sym same)
                (subst (IsValue r.entry) (sym held) (Admissible-stored r.entry.type raw good, near))
          | inr apart ↦ subst (IsValue e) (sym (commit_other e r v d' apart)) (now e listed writes)
        ];
    bits = λ i d now e listed writes.
        subst (λ (m : ℕ → ℕ). IsValue e (load_raw e m)) (sym (mem-clear_bit i d))
          (now e listed writes);
  }

  pub IsUntouched-IsStable : (d0 : Device) → IsStable t (IsUntouched t d0)
  IsUntouched-IsStable d0 = record {
    stores = λ r raw d at h (writable, good, near, _) before now e listed fixed.
        let d' = asked_device (some t) r raw d in
        elim (IsLaid-at t.entries e r.entry listed.0 at.0 laid listed.1 at.1) [
          | inl same ↦ absurd (ro-ne-rw (sym fixed ∙ ap (λ (x : RegEntry). x.perm) same ∙ writable))
          | inr apart ↦ commit_other e r (stored r.entry.type raw) d' apart ∙ now e listed fixed
        ];
    bits = λ i d now e listed fixed. ap (load_raw e) (mem-clear_bit i d) ∙ now e listed fixed;
  }
    where
      ro-ne-rw : reg_ro ≢ reg_rw
      ro-ne-rw h = cc h

  -- A store by the application, to a variable that is read-only for the adapters.
  pub own_store :
      (r : RegEntry) (v : ℕ) (d : Device)
      → Listed t.entries r
      → r.perm ≡ reg_ro
      → IsValid t d
      → IsValid t (record d { mem = store_raw r v d.mem })
  own_store r v d there fixed now e at writable =
      elim (IsLaid-at t.entries e r at.0 there.0 laid at.1 there.1) [
        | inl same ↦ cc (ap (λ (x : RegEntry). x.perm) same, writable, fixed)
        | inr apart ↦
            subst (IsValue e) (sym (load_raw-store_raw_ne e r d.mem v apart)) (now e at writable)
      ]
