-- ===== src/Core/Dirty/Keeps.antt =====
-- Properties of the device under `reg_poll` of src/regtable_core.c.
use regtable.Prelude.{ℕ, ◌+◌, ◌≡◌, ◌∙◌, ap, sym, if_cases}
use regtable.Prelude.{some, List, [], ◌∷◌, take, length, take_all}
use std.Path.{subst}
use regtable.Core.Types.{Device, RegEntry, RegTable}
use regtable.Core.Access.{Listed, AllListed, AllListed-self}
use regtable.Core.Dirty.{is_dirty, clear_bit, run_on_change, poll_entry, poll_from, reg_poll}

module _ {κ} (t : RegTable) (I : Device → Type κ)
    (bits : (i : ℕ) (d : Device) → I d → I (clear_bit i d))
    (changes : (e : RegEntry) (fired : ℕ) (d : Device)
      → Listed t.entries e
      → I d
      → I (run_on_change e.on_change fired d).1) where
  poll_entry-keeps :
      (e : RegEntry) (i fired : ℕ) (d : Device)
      → Listed t.entries e
      → I d
      → I (poll_entry e i fired d).1
  unfolding poll_entry
  poll_entry-keeps e i fired d at now =
      if_cases (λ (o : ℕ × Device). I o.1) (is_dirty d i) _ _
        (λ dirty. changes e fired (clear_bit i d) at (bits i d now)) (λ clean. now)

  poll_from-keeps :
      (es : List RegEntry) (i fired : ℕ) (d : Device)
      → AllListed t.entries es
      → I d
      → I (poll_from es i fired d).1
  unfolding poll_from
  poll_from-keeps [] i fired d at now = now
  poll_from-keeps (e ∷ es) i fired d at now =
      let (fired', d') = poll_entry e i fired d in
      poll_from-keeps es (i + 1) fired' d' at.1 (poll_entry-keeps e i fired d at.0 now)

  pub reg_poll-keeps : (d : Device) → t.count ≡ length t.entries → I d → I (reg_poll (some t) d).1
  unfolding reg_poll
  reg_poll-keeps d whole now =
      let all : take t.count t.entries ≡ t.entries =
        ap (λ n. take n t.entries) whole ∙ take_all t.entries in
      subst (λ (es : List RegEntry). I (poll_from es 0 0 d).1) (sym all)
        (poll_from-keeps t.entries 0 0 d (AllListed-self t.entries) now)
