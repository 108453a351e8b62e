-- ===== src/Mqtt/Poll/Marks.antt =====
-- The bits of `synced`, apart from the code that reads and sets them.
use regtable.Prelude.{
  ℕ, zero, suc, ◌/◌, ◌%◌, ◌^◌, ◌<◌, ◌≡◌, ◌∙◌, sym, ap, refl, arith, Bool, true, false,
}
use regtable.Prelude.{List, ◌==◌, if◌then◌else◌, length, get_or, replicate}
use regtable.Prelude.Bits.{bit, bit-set, bit-zero}
use native.Mathlib.Nat.{pow-suc, div-div-eq-div-mul}
use regtable.Core.Dirty.{max_entries, dirty_words, word_at}
use regtable.Core.Dirty.Laws.{word_at-set}
use regtable.Mqtt.Poll.{is_synced, set_synced}

-- The entry with index `i` is marked in sync: its bit, of the 32 of its word, is set.
pub is_marked : List ℕ → ℕ → Bool
is_marked ws i = bit (get_or ws (i / 32) 0) (i % 32) == 1

shift_bit : (k w : ℕ) → w / 2 ^ k % 2 ≡ bit w k
shift_bit zero w = omega arith
shift_bit (suc k) w =
    ap (λ (n : ℕ). w / n % 2) (pow-suc 2 k ∙ omega arith)
    ∙ ap (λ (n : ℕ). n % 2) (sym (div-div-eq-div-mul w 2 (2 ^ k)))
    ∙ shift_bit k (w / 2)

pub is_synced-marked : (ws : List ℕ) (i : ℕ) → is_synced ws i ≡ is_marked ws i
unfolding is_synced is_marked
is_synced-marked ws i = ap (λ (n : ℕ). n == 1) (shift_bit (i % 32) (word_at ws (i / 32)))

pub is_marked-set_synced :
    (ws : List ℕ) (i : ℕ)
    → length ws ≡ dirty_words
    → i < max_entries
    → (j : ℕ) → is_marked (set_synced ws i true) j ≡ (if j == i then true else is_marked ws j)
unfolding is_marked set_synced
is_marked-set_synced ws i full small j =
    rw (word_at-set ws (i / 32) _ (omega arith) (j / 32))
      (ground (arith, bit-set (word_at ws (i / 32)) (i % 32) (j % 32)))

no_words : (k : ℕ) → word_at (replicate dirty_words 0) k ≡ 0
no_words zero = refl
no_words (suc zero) = refl
no_words (suc (suc k)) = refl

pub none_marked : (j : ℕ) → is_marked (replicate dirty_words 0) j ≡ false
unfolding is_marked
none_marked j = rw (no_words (j / 32), bit-zero (j % 32)) refl
