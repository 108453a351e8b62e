-- ===== src/Mqtt/Poll/State.antt =====
-- The state of the publisher: which entries are in sync, and what a poll leaves alone.
use regtable.Prelude.{ℕ, ◌+◌, ◌/◌, ◌<◌, ◌≤◌, ◌≡◌, ◌∙◌, ◌⊎◌, sym, ap, refl, arith, inl}
use regtable.Prelude.{true, List, [], ◌∷◌}
use regtable.Prelude.{length, length-set, get_or, set, get_or-set_self, get_or-set_ne}
use regtable.Core.Types.{RegEntry}
use regtable.Core.Memory.{load_raw}
use regtable.Core.Dirty.{max_entries, dirty_words}
use regtable.Mqtt.Poll.{Session, set_synced}
use regtable.Mqtt.Poll.Marks.{is_marked, is_marked-set_synced}

module _ {ℓ} {W : Type ℓ} where
  -- The arrays have their lengths.
  pub record IsSession (s : Session W) : Type 0 where
    pub shadows : length s.shadow ≡ max_entries
    pub words : length s.synced ≡ dirty_words

  -- The entry with index `i` is marked in sync, with the value that it has.
  abbrev pub IsCurrent : Session W → RegEntry → ℕ → Type 0
  IsCurrent s e i = (is_marked s.synced i ≡ true) × (get_or s.shadow i 0 ≡ load_raw e s.device.mem)

  -- So it is for each of the entries, from index `i` on.
  abbrev pub AllCurrent : Session W → List RegEntry → ℕ → Type 0
  AllCurrent s [] i = Unit
  AllCurrent s (e ∷ es) i = IsCurrent s e i × AllCurrent s es (i + 1)

  -- From `s` to `s'` only the entries from index `lo` up to `hi` were looked at.
  pub record Touched (s s' : Session W) (lo hi : ℕ) : Type ℓ where
    pub same : s'.device ≡ s.device
    pub ok : IsSession s'
    pub others :
        (j : ℕ)
        → (j < lo) ⊎ (hi ≤ j)
        → (is_marked s'.synced j ≡ is_marked s.synced j)
          × (get_or s'.shadow j 0 ≡ get_or s.shadow j 0)

  pub untouched : (s : Session W) (lo hi : ℕ) → IsSession s → Touched s s lo hi
  untouched s lo hi ok = record { same = refl; ok = ok; others = λ j h. (refl, refl) }

  abbrev pub published : Session W → ℕ → ℕ → W → Session W
  published s i raw w = record s {
    shadow = set s.shadow i raw;
    synced = set_synced s.synced i true;
    client = w;
  }

  pub published-Touched :
      (s : Session W) (i raw : ℕ) (w : W)
      → IsSession s
      → i < max_entries
      → Touched s (published s i raw w) i (i + 1)
  unfolding set_synced
  published-Touched s i raw w ok small = record {
    same = refl;
    ok = record {
      shadows = length-set s.shadow i raw ∙ ok.shadows;
      words = length-set s.synced (i / 32) _ ∙ ok.words;
    };
    others = λ j h. (
      ground (arith, is_marked-set_synced s.synced i ok.words small j),
      get_or-set_ne s.shadow {i = i} {j = j} raw 0 (ground arith),
    );
  }

  pub published-IsCurrent :
      (s : Session W) (e : RegEntry) (i : ℕ) (w : W)
      → IsSession s
      → i < max_entries
      → IsCurrent (published s i (load_raw e s.device.mem) w) e i
  published-IsCurrent s e i w ok small = (
    ground (arith, is_marked-set_synced s.synced i ok.words small i),
    get_or-set_self s.shadow i _ 0 (omega (arith, ok.shadows)),
  )

  pub still-IsCurrent :
      (s s' : Session W) (e : RegEntry) (i lo hi : ℕ)
      → Touched s s' lo hi
      → i < lo
      → IsCurrent s e i
      → IsCurrent s' e i
  still-IsCurrent s s' e i lo hi touched below now =
      let kept = touched.others i (inl below) in
      (kept.0 ∙ now.0, kept.1 ∙ now.1 ∙ ap (λ d. load_raw e d.mem) (sym touched.same))

  pub Touched-join :
      (s s' s'' : Session W) (lo mid hi : ℕ)
      → lo ≤ mid
      → mid ≤ hi
      → Touched s s' lo mid
      → Touched s' s'' mid hi
      → Touched s s'' lo hi
  Touched-join s s' s'' lo mid hi a b one two = record {
    same = two.same ∙ one.same;
    ok = two.ok;
    others = λ j h.
        let first = one.others j (ground arith) in
        let second = two.others j (ground arith) in (second.0 ∙ first.0, second.1 ∙ first.1);
  }
