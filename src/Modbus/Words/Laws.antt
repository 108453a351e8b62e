-- ===== src/Modbus/Words/Laws.antt =====
-- A value that is put on the wire is the value taken from it.
use regtable.Prelude.{ℕ, ◌*◌, ◌/◌, ◌%◌, ◌^◌, ◌<◌, ◌≡◌, Bool, true, false}
use regtable.Prelude.{some, List, ◌++◌, bit_or}
use regtable.Prelude.{refl, arith, length, ap, ◌∙◌}
use regtable.Prelude.Bits.{bit_or-shifted}
use regtable.Core.Types.{
  RegType, reg_u8, reg_u16, reg_u32, reg_i8, reg_i16, reg_i32, reg_float, reg_bool,
}
use regtable.Core.Memory.{InDomain}
use regtable.Modbus.Crc.Laws.{AllBytes}
use regtable.Modbus.Map.{entry_words}
use regtable.Modbus.Words.{raw_to_words, words_to_raw, one_word}

-- A value takes two bytes for each word.
pub length-raw_to_words :
    (swap : Bool) (ty : RegType) (raw : ℕ) → length (raw_to_words swap ty raw) ≡ 2 * entry_words ty
unfolding raw_to_words
length-raw_to_words swap reg_u8 raw = refl
length-raw_to_words swap _ raw = refl

pub raw_to_words-AllBytes :
    (swap : Bool) (ty : RegType) (raw : ℕ) → AllBytes (raw_to_words swap ty raw)
unfolding raw_to_words
raw_to_words-AllBytes swap reg_u8 raw = omega arith
raw_to_words-AllBytes swap _ raw = omega arith

-- The two bytes of a word make the word.
word_lem : (w : ℕ) → bit_or (w / 2 ^ 8 % 256 * 2 ^ 8) (w % 256) % 2 ^ 16 ≡ w % 2 ^ 16
word_lem w = omega (arith, bit_or-shifted 8 (w / 2 ^ 8 % 256) (w % 256) (omega arith))

halves_lem :
    (w : ℕ) → w < 2 ^ 32 → bit_or (w / 2 ^ 16 % 2 ^ 16 % 2 ^ 16 * 2 ^ 16) (w % 2 ^ 16 % 2 ^ 16) ≡ w
halves_lem w h =
    omega
      (arith, bit_or-shifted 16 (w / 2 ^ 16 % 2 ^ 16 % 2 ^ 16) (w % 2 ^ 16 % 2 ^ 16) (omega arith))

module _ (raw : ℕ) (rest : List ℕ) where
  one_word_lem :
      (swap : Bool) (ty : RegType)
      → entry_words ty ≡ 1
      → words_to_raw swap ty (raw_to_words swap ty raw ++ rest) ≡ some (one_word ty (raw % 2 ^ 16))
  unfolding words_to_raw raw_to_words
  one_word_lem swap ty e = rw (e, word_lem raw)

  two_words_lem :
      (swap : Bool) (ty : RegType)
      → entry_words ty ≡ 2
      → raw < 2 ^ 32
      → words_to_raw swap ty (raw_to_words swap ty raw ++ rest) ≡ some raw
  unfolding words_to_raw raw_to_words
  two_words_lem true ty e h =
      rw (e, word_lem (raw % 2 ^ 16), word_lem (raw / 2 ^ 16 % 2 ^ 16)) (ap some (halves_lem raw h))
  two_words_lem false ty e h =
      rw (e, word_lem (raw % 2 ^ 16), word_lem (raw / 2 ^ 16 % 2 ^ 16)) (ap some (halves_lem raw h))

-- Whatever the word order of the device, and whatever follows, `words_to_raw` gives back the
-- value that `raw_to_words` laid out, for every value of the type.
pub words_to_raw-raw_to_words :
    (swap : Bool) (ty : RegType) (raw : ℕ) (rest : List ℕ)
    → InDomain ty raw
    → words_to_raw swap ty (raw_to_words swap ty raw ++ rest) ≡ some raw
words_to_raw-raw_to_words swap reg_u8 raw rest h =
    one_word_lem raw rest swap reg_u8 refl ∙ ap some (ground arith)
words_to_raw-raw_to_words swap reg_u16 raw rest h =
    one_word_lem raw rest swap reg_u16 refl ∙ ap some (ground arith)
words_to_raw-raw_to_words swap reg_i8 raw rest h =
    one_word_lem raw rest swap reg_i8 refl ∙ ap some (ground arith)
words_to_raw-raw_to_words swap reg_i16 raw rest h =
    one_word_lem raw rest swap reg_i16 refl ∙ ap some (ground arith)
words_to_raw-raw_to_words swap reg_bool raw rest h =
    one_word_lem raw rest swap reg_bool refl ∙ ap some (ground arith)
words_to_raw-raw_to_words swap reg_u32 raw rest h = two_words_lem raw rest swap reg_u32 refl h
words_to_raw-raw_to_words swap reg_i32 raw rest h = two_words_lem raw rest swap reg_i32 refl h
words_to_raw-raw_to_words swap reg_float raw rest h = two_words_lem raw rest swap reg_float refl h
