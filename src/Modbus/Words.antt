-- ===== src/Modbus/Words.antt =====
-- Values on the wire, of src/regtable_modbus.c: `raw_to_words` and `words_to_raw`.
pub mod Laws
use regtable.Prelude.{ℕ, suc, ◌+◌, ◌-◌, ◌*◌, ◌/◌, ◌%◌, ◌^◌, Bool, true, false, Option, none, some}
use regtable.Prelude.{List, [], ◌∷◌, ltb, ◌==◌, if◌then◌else◌, bit_or, get_elem?, ◌>>=◌}
use regtable.Core.Types.{RegType, reg_i8, reg_i16}
use regtable.Modbus.Map.{entry_words}

unfoldable pub raw_to_words : Bool → RegType → ℕ → List ℕ
raw_to_words word_swap ty raw =
    if entry_words ty == 1
    then raw / 2 ^ 8 % 256 ∷ raw % 256 ∷ []
    else let hi = raw / 2 ^ 16 % 2 ^ 16 in
      let lo = raw % 2 ^ 16 in
      let first = if word_swap then lo else hi in
      let second = if word_swap then hi else lo in
      first / 2 ^ 8 % 256 ∷ first % 256 ∷ second / 2 ^ 8 % 256 ∷ second % 256 ∷ []

-- `(uint32_t)(int32_t)(int16_t)w0`
abbrev pub extend_word : ℕ → ℕ
extend_word w = if ltb w (2 ^ 15) then w else w + (2 ^ 32 - 2 ^ 16)

-- One word of `in`: the signed types are extended.
abbrev pub one_word : RegType → ℕ → ℕ
one_word reg_i8 w0 = extend_word w0
one_word reg_i16 w0 = extend_word w0
one_word _ w0 = w0

-- The word at byte `i` of `in`; `none` is a read outside the buffer.
abbrev pub word_at : List ℕ → ℕ → Option ℕ
word_at input i = do
  high ← get_elem? input i
  low ← get_elem? input (i + 1)
  some (bit_or (high * 2 ^ 8) low % 2 ^ 16)

-- Two words, joined in the order of the device.
abbrev pub join_words : Bool → ℕ → ℕ → ℕ
join_words word_swap w0 w1 =
    let hi = if word_swap then w1 else w0 in
    let lo = if word_swap then w0 else w1 in bit_or (hi * 2 ^ 16) lo

unfoldable pub words_to_raw : Bool → RegType → List ℕ → Option ℕ
words_to_raw word_swap ty input = do
  w0 ← word_at input 0
  if entry_words ty == 1
      then some (one_word ty w0)
      else do w1 ← word_at input 2; some (join_words word_swap w0 w1)
