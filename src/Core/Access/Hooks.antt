-- ===== src/Core/Access/Hooks.antt =====
-- The hooks of a table, entry by entry.
use regtable.Prelude.{ℕ, zero, suc, ◌≡◌, Bool}
use regtable.Prelude.{none, some, List, [], ◌∷◌}
use std.Path.{subst}
use regtable.Core.Types.{Device, RegEntry, RegTable}
use regtable.Core.Access.{Listed}
use regtable.Core.Access.Keeps.{HooksKeep}

-- What holds of each entry of a list.
abbrev pub AllEntries {κ} : (RegEntry → Type κ) → List RegEntry → Type κ
AllEntries P [] = Unit
AllEntries P (e ∷ es) = P e × AllEntries P es

pub AllEntries-Listed {κ} :
    (P : RegEntry → Type κ) (es : List RegEntry) (e : RegEntry)
    → AllEntries P es
    → Listed es e
    → P e
AllEntries-Listed P [] e all (i, is) = cc
AllEntries-Listed P (x ∷ es) e all (zero, is) = subst P (let at : x ≡ e = cc is in at) all.0
AllEntries-Listed P (x ∷ es) e all (suc i, is) = AllEntries-Listed P es e all.1 (i, is)

module _ {κ} (I : Device → Type κ) where
  -- The hooks of one entry keep the property.
  pub record EntryKeeps (e : RegEntry) : Type κ where
    pub reads : (hook : Device → Device) (d : Device) → e.on_read ≡ some hook → I d → I (hook d)
    pub writes :
        (hook : ℕ → Device → Bool × Device) (v : ℕ) (d : Device)
        → e.on_write ≡ some hook
        → I d
        → I (hook v d).1
    pub changes : (hook : Device → Device) (d : Device) → e.on_change ≡ some hook → I d → I (hook d)

  pub HooksKeep-AllEntries : (t : RegTable) → AllEntries EntryKeeps t.entries → HooksKeep t I
  HooksKeep-AllEntries t all = record {
    reads =
        λ e hook d at is now. (AllEntries-Listed EntryKeeps t.entries e all at).reads hook d is now;
    writes = λ e hook v d at is now.
        (AllEntries-Listed EntryKeeps t.entries e all at).writes hook v d is now;
    changes = λ e hook d at is now.
        (AllEntries-Listed EntryKeeps t.entries e all at).changes hook d is now;
  }

  -- An entry with no hook.
  pub quiet :
      (e : RegEntry) → e.on_read ≡ none → e.on_write ≡ none → e.on_change ≡ none → EntryKeeps e
  quiet e r w c = record {
    reads = λ hook d is now. cc (r, is);
    writes = λ hook v d is now. cc (w, is);
    changes = λ hook d is now. cc (c, is);
  }

  -- An entry with a hook that prints.
  pub printing :
      (e : RegEntry)
      → e.on_read ≡ none
      → e.on_write ≡ none
      → e.on_change ≡ some (λ d. d)
      → EntryKeeps e
  printing e r w c = record {
    reads = λ hook d is now. cc (r, is);
    writes = λ hook v d is now. cc (w, is);
    changes = λ hook d is now.
        let same : ◌≡◌ {A = Device → Device} (λ x. x) hook = cc (c, is) in
        subst (λ (h : Device → Device). I (h d)) same now;
  }

  -- An entry whose variable is filled when it is read.
  pub refreshed :
      (e : RegEntry) (refresh : Device → Device)
      → e.on_read ≡ some refresh
      → e.on_write ≡ none
      → e.on_change ≡ none
      → ((d : Device) → I d → I (refresh d))
      → EntryKeeps e
  refreshed e refresh r w c keeps = record {
    reads = λ hook d is now.
        let same : refresh ≡ hook = cc (r, is) in
        subst (λ (h : Device → Device). I (h d)) same (keeps d now);
    writes = λ hook v d is now. cc (w, is);
    changes = λ hook d is now. cc (c, is);
  }
