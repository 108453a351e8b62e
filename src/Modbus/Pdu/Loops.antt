-- ===== src/Modbus/Pdu/Loops.antt =====
-- The reads of a request and the loops over its words end well: nothing is read outside the
-- request, and no NULL entry is followed, where the words are laid with whole entries.
use regtable.Prelude.{ℕ, zero, suc, ◌+◌, ◌*◌, ◌%◌, ◌^◌, ◌≤◌, ◌<◌, ◌≡◌, inl, inr, refl, arith}
use regtable.Prelude.{Bool, true, Bool-cases, bit_or}
use regtable.Prelude.{Option, some, List, [], ◌∷◌, ◌++◌, ltb, ◌==◌}
use regtable.Prelude.{length, get_elem?, drop, length-append, length-drop}
use regtable.Core.Types.{RegType, reg_ok, Device}
use regtable.Core.Raw.{reg_set_raw, reg_get_raw}
use regtable.Modbus.Map.{RegModbus, entry_words}
use regtable.Modbus.Map.Cover.{Tiled, done, tile, Tiled-le, entry_words_bounds}
use regtable.Modbus.Words.{word_at, one_word, join_words, raw_to_words, words_to_raw}
use regtable.Modbus.Words.Laws.{length-raw_to_words, raw_to_words-AllBytes}
use regtable.Modbus.Crc.Laws.{AllBytes, AllBytes-append}
use regtable.Modbus.Pdu.{Reply, is_ok, read_loop, write_loop}

-- A computation that ends well.
abbrev pub Returns {ℓ} : {A : Type ℓ} → Option A → Type ℓ
Returns {A} o = (a : A) × (o ≡ some a)

pub get_elem?-Returns : (xs : List ℕ) (i : ℕ) → i < length xs → Returns (get_elem? xs i)
get_elem?-Returns [] i h = absurd (omega arith)
get_elem?-Returns (x ∷ xs) zero h = (x, refl)
get_elem?-Returns (x ∷ xs) (suc i) h = get_elem?-Returns xs i (omega arith)

pub word_at-Returns : (xs : List ℕ) (i : ℕ) → i + 1 < length xs → Returns (word_at xs i)
word_at-Returns xs i h =
    let (high, e) = get_elem?-Returns xs i (omega arith) in
    let (low, e') = get_elem?-Returns xs (i + 1) h in
    (bit_or (high * 2 ^ 8) low % 2 ^ 16, rw (e, e'))

pub words_to_raw-Returns :
    (swap : Bool) (ty : RegType) (input : List ℕ)
    → 2 * entry_words ty ≤ length input
    → Returns (words_to_raw swap ty input)
unfolding words_to_raw
words_to_raw-Returns swap ty input h =
    let (w0, e) = word_at-Returns input 0 (omega (arith, entry_words_bounds ty)) in
    elim (Bool-cases (entry_words ty == 1)) [
      | inl one ↦ (one_word ty w0, rw (e, one))
      | inr two ↦
          let (w1, e') = word_at-Returns input 2 (ground (arith, entry_words_bounds ty)) in
          (join_words swap w0 w1, rw (e, two, e'))
    ]

-- The read loop over whole entries ends, with two bytes for each word.
pub read_loop-Returns :
    (mb : RegModbus) (fuel addr end : ℕ) (d : Device)
    → end < addr + fuel
    → Tiled mb.table end addr
    → (out : Reply) × (read_loop fuel mb addr end d ≡ some out)
      × (length out.0 + 2 * addr ≡ 2 * end)
      × AllBytes out.0
unfolding read_loop
read_loop-Returns mb zero addr end d enough tiles = absurd (omega (arith, Tiled-le tiles))
read_loop-Returns mb (suc fuel) addr end d enough (done e) =
    (([], d), ground arith, omega arith, tt)
read_loop-Returns mb (suc fuel) addr end d enough (tile r lt e rest) =
    let (raw, d') = reg_get_raw r.entry d in
    let words = raw_to_words mb.word_swap r.entry.type raw in
    let (out, is, size, bytes) =
      read_loop-Returns mb fuel (addr + entry_words r.entry.type) end d'
        (omega (arith, entry_words_bounds r.entry.type)) rest in
    let more : ltb addr end ≡ true = ground arith in
    (
      (words ++ out.0, out.1),
      rw (more, e, is),
      omega (
        arith,
        size,
        length-append words out.0,
        length-raw_to_words mb.word_swap r.entry.type raw,
      ),
      AllBytes-append words out.0 (raw_to_words-AllBytes mb.word_swap r.entry.type raw) bytes,
    )

-- The write loop over whole entries ends, if there are two bytes for each word.
pub write_loop-Returns :
    (mb : RegModbus) (fuel addr end : ℕ) (input : List ℕ) (d : Device)
    → end < addr + fuel
    → length input + 2 * addr ≡ 2 * end
    → Tiled mb.table end addr
    → Returns (write_loop fuel mb addr end input d)
unfolding write_loop
write_loop-Returns mb zero addr end input d enough size tiles =
    absurd (omega (arith, Tiled-le tiles))
write_loop-Returns mb (suc fuel) addr end input d enough size (done e) = ((reg_ok, d), ground arith)
write_loop-Returns mb (suc fuel) addr end input d enough size (tile r lt e rest) =
    let (raw, is) =
      words_to_raw-Returns mb.word_swap r.entry.type input (omega (arith, Tiled-le rest, size)) in
    let (res, d') = reg_set_raw (some mb.table) r raw d in
    let (out, is') =
      write_loop-Returns mb fuel (addr + entry_words r.entry.type) end
        (drop (2 * entry_words r.entry.type) input) d'
        (omega (arith, entry_words_bounds r.entry.type))
        (omega (arith, size, Tiled-le rest, length-drop (2 * entry_words r.entry.type) input))
        rest in
    let more : ltb addr end ≡ true = ground arith in
    elim (Bool-cases (is_ok res)) [
      | inl fine ↦ (out, rw (more, e, is, fine, is'))
      | inr refused ↦ ((res, d'), rw (more, e, is, refused))
    ]
