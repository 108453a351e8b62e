-- ===== src/Modbus/Pdu/Access.antt =====
-- The accesses of the handlers of src/regtable_modbus.c: `do_read`, `do_write_single` and
-- `do_write_multiple`, and of `pdu_handle` above them.
use regtable.Prelude.{ℕ, zero, suc, ◌+◌, ◌*◌, ◌%◌, ◌^◌, ◌<◌, arith}
use regtable.Prelude.{Bool, not, ◌&&◌, ◌||◌, if_cases, if◌then◌else◌}
use regtable.Prelude.{Option, none, some, List, [], ◌∷◌, ltb, ◌==◌, length, get_elem?, take, drop}
use regtable.Prelude.Bits.{bit_or-lt}
use regtable.Core.Types.{RegType, reg_i8, reg_i16, RegResult, Device, EntryRef}
use regtable.Core.Raw.{reg_set_raw, reg_get_raw}
use regtable.Core.Access.{
  IsEntry, IsEntry-Listed, Accesses, start, read, write, Accesses-join, Each, Each-bind, Each-map,
  Any, Each-Any,
}
use regtable.Modbus.Map.{RegModbus, entry_words, entry_at, span_covered}
use regtable.Modbus.Map.Listed.{entry_at-IsEntry}
use regtable.Modbus.Words.{word_at, one_word, join_words, raw_to_words, words_to_raw}
use regtable.Modbus.Pdu.{
  Reply, answer, prepend, go_on, is_ok, max_read_qty, max_write_qty, fc_read_holding, fc_read_input,
  fc_write_single, fc_write_multiple, read_loop, read_span, do_read, write_entry, write_found,
  do_write_single, write_loop, write_span, do_write_multiple, dispatch, pdu_handle,
}

-- A value below 2^32.
abbrev Is32 : ℕ → Type 0
Is32 raw = raw < 2 ^ 32

abbrev Is16 : ℕ → Type 0
Is16 w = w < 2 ^ 16

word_at-Is16 : (xs : List ℕ) (i : ℕ) → Each Is16 (word_at xs i)
word_at-Is16 xs i =
    Each-bind Any Is16 (get_elem? xs i) _ (Each-Any _)
      (λ high _. Each-bind Any Is16 (get_elem? xs (i + 1)) _ (Each-Any _) (λ low _. omega arith))

one_word-Is32 : (ty : RegType) (w : ℕ) → w < 2 ^ 16 → one_word ty w < 2 ^ 32
one_word-Is32 reg_i8 w h = ground arith
one_word-Is32 reg_i16 w h = ground arith
one_word-Is32 _ w h = omega arith

join_words-Is32 :
    (swap : Bool) (w0 w1 : ℕ) → w0 < 2 ^ 16 → w1 < 2 ^ 16 → join_words swap w0 w1 < 2 ^ 32
join_words-Is32 swap w0 w1 h0 h1 =
    let hi = if swap then w1 else w0 in
    let lo = if swap then w0 else w1 in
    let small : (hi < 2 ^ 16) × (lo < 2 ^ 16) = ground arith in
    bit_or-lt 32 (hi * 2 ^ 16) lo (omega (arith, small.0)) (omega (arith, small.1))

words_to_raw-Is32 :
    (swap : Bool) (ty : RegType) (input : List ℕ) → Each Is32 (words_to_raw swap ty input)
unfolding words_to_raw
words_to_raw-Is32 swap ty input =
    Each-bind Is16 Is32 (word_at input 0) _ (word_at-Is16 input 0) λ w0 h0.
      if_cases (Each Is32) (entry_words ty == 1) _ _ (λ one. one_word-Is32 ty w0 h0)
        λ two.
          Each-bind Is16 Is32 (word_at input 2) _ (word_at-Is16 input 2)
            (λ w1 h1. join_words-Is32 swap w0 w1 h0 h1)

module _ (mb : RegModbus) where
  -- The device of a reply is reached by accesses.
  abbrev pub Reached : Device → Reply → Type 0
  Reached d reply = Accesses mb.table d reply.1

  abbrev Settled : Device → RegResult × Device → Type 0
  Settled d done = Accesses mb.table d done.1

  prepend-Reached :
      (d : Device) (bytes : List ℕ) (o : Option Reply)
      → Each (Reached d) o
      → Each (Reached d) (prepend bytes o)
  prepend-Reached d bytes none h = tt
  prepend-Reached d bytes (some reply) h = h

  read_loop-Reached :
      (fuel addr end : ℕ) (d : Device) → Each (Reached d) (read_loop fuel mb addr end d)
  unfolding read_loop
  read_loop-Reached zero addr end d = tt
  read_loop-Reached (suc fuel) addr end d =
      if_cases (Each (Reached d)) (not (ltb addr end)) _ _ (λ stop. start)
        λ more.
          Each-bind (IsEntry mb.table.entries mb.table.base) (Reached d)
            (entry_at mb.table (addr % 2 ^ 16)) _ (entry_at-IsEntry mb.table (addr % 2 ^ 16))
            λ r at.
              let (raw, d') = reg_get_raw r.entry d in
              let one : Accesses mb.table d d' = read r.entry start (IsEntry-Listed _ _ r at) in
              prepend-Reached d (raw_to_words mb.word_swap r.entry.type raw) _ (
                Each-map (Reached d') (Reached d) _ (λ reply rest. Accesses-join one rest)
                  (read_loop-Reached fuel (addr + entry_words r.entry.type) end d'))

  -- Behind a write, the rest of the loop.
  go_on-Settled :
      (d : Device) (done : RegResult × Device) (next : Device → Option (RegResult × Device))
      → Accesses mb.table d done.1
      → Each (Settled done.1) (next done.1)
      → Each (Settled d) (go_on done next)
  go_on-Settled d done next one rest =
      if_cases (Each (Settled d)) (is_ok done.0) _ _
        (λ fine.
          Each-map (Settled done.1) (Settled d) (next done.1) (λ o more. Accesses-join one more)
            rest)
        (λ refused. one)

  write_loop-Settled :
      (fuel addr end : ℕ) (input : List ℕ) (d : Device)
      → Each (Settled d) (write_loop fuel mb addr end input d)
  unfolding write_loop
  write_loop-Settled zero addr end input d = tt
  write_loop-Settled (suc fuel) addr end input d =
      if_cases (Each (Settled d)) (not (ltb addr end)) _ _ (λ stop. start)
        λ more.
          Each-bind (IsEntry mb.table.entries mb.table.base) (Settled d)
            (entry_at mb.table (addr % 2 ^ 16)) _ (entry_at-IsEntry mb.table (addr % 2 ^ 16))
            λ r at.
              Each-bind Is32 (Settled d) (words_to_raw mb.word_swap r.entry.type input) _
                (words_to_raw-Is32 mb.word_swap r.entry.type input)
                λ raw h.
                  let done = reg_set_raw (some mb.table) r raw d in
                  let next =
                    write_loop fuel mb (addr + entry_words r.entry.type) end
                      (drop (2 * entry_words r.entry.type) input) in
                  go_on-Settled d done next (write r raw start at h) (
                    write_loop-Settled fuel (addr + entry_words r.entry.type) end
                      (drop (2 * entry_words r.entry.type) input) done.1)

  answer-Reached :
      (pcap fc : ℕ) (broadcast : Bool) (echo : List ℕ) (d : Device) (done : RegResult × Device)
      → Accesses mb.table d done.1
      → Reached d (answer pcap fc broadcast echo done)
  answer-Reached pcap fc broadcast echo d done h =
      if_cases (Reached d) (is_ok done.0) _ _ (λ fine. h) (λ refused. h)

module _ (mb : RegModbus) (pdu : List ℕ) (pcap : ℕ) (broadcast : Bool) (d : Device) where
  abbrev P : Option Reply → Type 0
  P o = Each (Reached mb d) o

  read_span-Reached : (fc start' qty : ℕ) → P (read_span mb fc start' qty pcap d)
  unfolding read_span
  read_span-Reached fc start' qty =
      if_cases P (ltb qty 1 || ltb max_read_qty qty) _ _ (λ bad. start)
        λ sizes.
          if_cases P (not (span_covered mb.table start' qty)) _ _ (λ bad. start)
            λ covered.
              if_cases P (ltb pcap ((2 + 2 * qty) % 2 ^ 16)) _ _ (λ tight. start)
                λ room.
                  prepend-Reached mb d (fc ∷ 2 * qty % 256 ∷ []) _
                    (read_loop-Reached mb (qty + 1) start' (start' + qty) d)

  do_read-Reached : P (do_read mb pdu pcap d)
  unfolding do_read
  do_read-Reached = Each-bind Any (Reached mb d) (get_elem? pdu 0) _ (Each-Any _) λ fc _.
      if_cases P (not (length pdu == 5)) _ _ (λ bad. start)
        λ five. Each-bind Any (Reached mb d) (word_at pdu 1) _ (Each-Any _) λ start' _.
          Each-bind Any (Reached mb d) (word_at pdu 3) _ (Each-Any _)
            (λ qty _. read_span-Reached fc start' qty)

  write_entry-Reached :
      (fc : ℕ) (r : EntryRef)
      → IsEntry mb.table.entries mb.table.base r
      → P (write_entry mb pdu fc pcap broadcast r d)
  unfolding write_entry
  write_entry-Reached fc r at =
      if_cases P (not (entry_words r.entry.type == 1)) _ _ (λ half. start)
        λ one.
          if_cases P (not broadcast && ltb pcap 5) _ _ (λ tight. start)
            λ room.
              Each-bind Is32 (Reached mb d) (words_to_raw mb.word_swap r.entry.type (drop 3 pdu)) _
                (words_to_raw-Is32 mb.word_swap r.entry.type (drop 3 pdu))
                λ raw h.
                  answer-Reached mb pcap fc broadcast (take 5 pdu) d
                    (reg_set_raw (some mb.table) r raw d) (write r raw start at h)

  found-Reached :
      (fc : ℕ) (o : Option EntryRef)
      → Each (IsEntry mb.table.entries mb.table.base) o
      → P (write_found mb pdu fc pcap broadcast d o)
  found-Reached fc none at = start
  found-Reached fc (some r) at = write_entry-Reached fc r at

  do_write_single-Reached : P (do_write_single mb pdu pcap broadcast d)
  unfolding do_write_single
  do_write_single-Reached = Each-bind Any (Reached mb d) (get_elem? pdu 0) _ (Each-Any _) λ fc _.
      if_cases P (not (length pdu == 5)) _ _ (λ bad. start)
        λ five.
          Each-bind Any (Reached mb d) (word_at pdu 1) _ (Each-Any _)
            λ addr _. found-Reached fc (entry_at mb.table addr) (entry_at-IsEntry mb.table addr)

  write_span-Reached :
      (fc start' qty bytes : ℕ) → P (write_span mb pdu fc start' qty bytes pcap broadcast d)
  unfolding write_span
  write_span-Reached fc start' qty bytes =
      if_cases P
        (ltb qty 1
          || ltb max_write_qty qty
          || not (bytes == 2 * qty)
          || not (length pdu == (6 + bytes) % 2 ^ 16))
        _ _ (λ bad. start)
        λ sizes.
          if_cases P (not (span_covered mb.table start' qty)) _ _ (λ bad. start)
            λ covered.
              if_cases P (not broadcast && ltb pcap 5) _ _ (λ tight. start)
                λ room.
                  Each-bind (Settled mb d) (Reached mb d)
                    (write_loop (qty + 1) mb start' (start' + qty) (drop 6 pdu) d) _
                    (write_loop-Settled mb (qty + 1) start' (start' + qty) (drop 6 pdu) d)
                    (λ done h. answer-Reached mb pcap fc broadcast (take 5 pdu) d done h)

  do_write_multiple-Reached : P (do_write_multiple mb pdu pcap broadcast d)
  unfolding do_write_multiple
  do_write_multiple-Reached = Each-bind Any (Reached mb d) (get_elem? pdu 0) _ (Each-Any _) λ fc _.
      if_cases P (ltb (length pdu) 6) _ _ (λ bad. start)
        λ six. Each-bind Any (Reached mb d) (word_at pdu 1) _ (Each-Any _) λ start' _.
          Each-bind Any (Reached mb d) (word_at pdu 3) _ (Each-Any _) λ qty _.
            Each-bind Any (Reached mb d) (get_elem? pdu 5) _ (Each-Any _)
              (λ bytes _. write_span-Reached fc start' qty bytes)

  dispatch-Reached : (fc : ℕ) → P (dispatch mb pdu fc pcap broadcast d)
  unfolding dispatch
  dispatch-Reached fc =
      if_cases P (fc == fc_read_holding || fc == fc_read_input) _ _
        (λ reads. if_cases P broadcast _ _ (λ all. start) (λ one. do_read-Reached))
        λ _.
          if_cases P (fc == fc_write_single) _ _ (λ single. do_write_single-Reached)
            λ _.
              if_cases P (fc == fc_write_multiple) _ _ (λ multiple. do_write_multiple-Reached)
                λ _. if_cases P broadcast _ _ (λ all. start) (λ one. start)

  pub pdu_handle-Reached : P (pdu_handle mb pdu pcap broadcast d)
  unfolding pdu_handle
  pdu_handle-Reached =
      Each-bind Any (Reached mb d) (get_elem? pdu 0) _ (Each-Any _) (λ fc _. dispatch-Reached fc)
