-- ===== src/Core/Dirty/Laws.antt =====
-- The dirty bitmap bit by bit: what marking and clearing change.
use regtable.Prelude.{ℕ, ◌-◌, ◌/◌, ◌%◌, ◌^◌, ◌<◌, ◌≡◌}
use regtable.Prelude.{List, ◌==◌, if◌then◌else◌}
use regtable.Prelude.{refl, length, set, arith, inl, inr, Bool-cases, ◌∙◌, ◌⊎◌}
use native.Mathlib.Nat.{one-le-pow}
use regtable.Prelude.{length-set, get_or-set_self, get_or-set_ne}
use regtable.Prelude.Bits.{
  bit, bit-lt, bit-set, bit-clear, bit_and-pow, bit_or-lt, bit_and-lt, pow-lt,
}
use regtable.Core.Types.{Device}
use regtable.Core.Dirty.{max_entries, dirty_words, word_at, set_bit, is_dirty, clear_bit}

-- The bitmap has its length, and each word 32 bits.
pub record IsBitmap (ws : List ℕ) : Type 0 where
  pub full : length ws ≡ dirty_words
  pub fits : (i : ℕ) → word_at ws i < 2 ^ 32

-- Bit `i` of the bitmap.
abbrev pub dirty_bit : Device → ℕ → ℕ
dirty_bit d i = bit (word_at d.dirty (i / 32)) (i % 32)

pub word_at-set :
    (ws : List ℕ) (i v : ℕ)
    → i < length ws
    → (j : ℕ) → word_at (set ws i v) j ≡ (if j == i then v else word_at ws j)
word_at-set ws i v h j = elim (Bool-cases (j == i)) [
  | inl e ↦ ground (arith, get_or-set_self ws i v 0 h)
  | inr ne ↦ rw ne (get_or-set_ne ws {i = i} {j = j} v 0 (ground arith))
]

module _ (d : Device) (ok : IsBitmap d.dirty) (i : ℕ) (below : i < max_entries) where
  index_fits : i / 32 < length d.dirty
  index_fits = omega (arith, ok.full)

  pub dirty_bit-set_bit :
      (j : ℕ) → dirty_bit (set_bit i d) j ≡ (if j == i then 1 else dirty_bit d j)
  unfolding set_bit
  dirty_bit-set_bit j =
      rw (word_at-set d.dirty (i / 32) _ index_fits (j / 32))
        (ground (arith, bit-set (word_at d.dirty (i / 32)) (i % 32) (j % 32)))

  pub dirty_bit-clear_bit :
      (j : ℕ) → dirty_bit (clear_bit i d) j ≡ (if j == i then 0 else dirty_bit d j)
  unfolding clear_bit
  dirty_bit-clear_bit j = rw (word_at-set d.dirty (i / 32) _ index_fits (j / 32)) (
      ground (
        arith,
        bit-clear 32 (word_at d.dirty (i / 32)) (i % 32) (j % 32) (omega arith) (omega arith),
      ))

  pub set_bit-IsBitmap : IsBitmap (set_bit i d).dirty
  unfolding set_bit
  set_bit-IsBitmap = record {
    full = length-set d.dirty (i / 32) _ ∙ ok.full;
    fits = λ j. rw (word_at-set d.dirty (i / 32) _ index_fits j) (
        ground (
          arith,
          ok.fits j,
          bit_or-lt 32 (word_at d.dirty (i / 32)) (2 ^ (i % 32)) (ok.fits (i / 32))
              (pow-lt (i % 32) 32 (omega arith)),
        ));
  }

  pub clear_bit-IsBitmap : IsBitmap (clear_bit i d).dirty
  unfolding clear_bit
  clear_bit-IsBitmap = record {
    full = length-set d.dirty (i / 32) _ ∙ ok.full;
    fits = λ j. rw (word_at-set d.dirty (i / 32) _ index_fits j) (
        ground (
          arith,
          ok.fits j,
          bit_and-lt 32 (word_at d.dirty (i / 32)) (2 ^ 32 - 1 - 2 ^ (i % 32)) (ok.fits (i / 32)),
        ));
  }

pub mem-clear_bit : (i : ℕ) (d : Device) → (clear_bit i d).mem ≡ d.mem
unfolding clear_bit
mem-clear_bit i d = refl

pub bit_cases : (b : ℕ) → b < 2 → (b ≡ 0) ⊎ (b ≡ 1)
bit_cases b h = omega arith

-- The test of the loop reads the bit.
pub is_dirty-eq : (d : Device) (i : ℕ) → is_dirty d i ≡ (dirty_bit d i == 1)
unfolding is_dirty
is_dirty-eq d i =
    rw (bit_and-pow (word_at d.dirty (i / 32)) (i % 32))
      (elim (bit_cases (dirty_bit d i) (bit-lt (word_at d.dirty (i / 32)) (i % 32))) [
        | inl e ↦ rw e (ground arith)
        | inr e ↦ rw e (ground (arith, one-le-pow (i % 32) 2 (omega arith)))
      ])
