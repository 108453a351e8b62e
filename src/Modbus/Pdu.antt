-- ===== src/Modbus/Pdu.antt =====
-- The PDU layer of src/regtable_modbus.c, common to RTU and TCP. A handler takes the request PDU
-- and the room for the response, and returns the response PDU (empty: nothing to send) and the
-- device; `none` is a read outside the request, or through a NULL entry.
pub mod Access
pub mod Loops
pub mod Replies
pub mod Values
use regtable.Prelude.{ℕ, zero, suc, ◌+◌, ◌*◌, ◌%◌, ◌^◌, Bool, true, false, not, ◌&&◌, ◌||◌}
use regtable.Prelude.{Option, none, some, List, [], ◌∷◌, ◌++◌, ltb, ◌==◌, if◌then◌else◌, ◌>>=◌}
use regtable.Prelude.{bit_or, length, get_elem?, take, drop}
use regtable.Core.Types.{RegResult, reg_ok, Device, EntryRef}
use regtable.Core.Raw.{reg_set_raw, reg_get_raw}
use regtable.Modbus.Map.{RegModbus, entry_words, entry_at, span_covered}
use regtable.Modbus.Words.{word_at, raw_to_words, words_to_raw}

abbrev pub Reply : Type 0
Reply = List ℕ × Device

-- FC_READ_HOLDING and the rest
abbrev pub fc_read_holding : ℕ
fc_read_holding = 0x03

abbrev pub fc_read_input : ℕ
fc_read_input = 0x04

abbrev pub fc_write_single : ℕ
fc_write_single = 0x06

abbrev pub fc_write_multiple : ℕ
fc_write_multiple = 0x10

-- EXC_ILLEGAL_FUNCTION and the rest
abbrev pub exc_illegal_function : ℕ
exc_illegal_function = 0x01

abbrev pub exc_illegal_address : ℕ
exc_illegal_address = 0x02

abbrev pub exc_illegal_value : ℕ
exc_illegal_value = 0x03

abbrev pub exc_device_failure : ℕ
exc_device_failure = 0x04

abbrev pub max_read_qty : ℕ
max_read_qty = 125

abbrev pub max_write_qty : ℕ
max_write_qty = 123

unfoldable pub pdu_exception : ℕ → ℕ → ℕ → List ℕ
pdu_exception pcap fc code = if ltb pcap 2 then [] else bit_or fc 0x80 % 256 ∷ code ∷ []

abbrev pub is_ok : RegResult → Bool
is_ok reg_ok = true
is_ok _ = false

-- Bytes written before those of the rest of a loop.
abbrev pub prepend : List ℕ → Option Reply → Option Reply
prepend bytes none = none
prepend bytes (some (out, d)) = some (bytes ++ out, d)

-- The loop of `do_read` from word `addr` on. A round takes a word or two, so that a round of fuel
-- for each word, and one for the last test, are enough.
pub read_loop : ℕ → RegModbus → ℕ → ℕ → Device → Option Reply
read_loop zero mb addr end d = none
read_loop (suc fuel) mb addr end d = if not (ltb addr end) then some ([], d) else do
  r ← entry_at mb.table (addr % 2 ^ 16)
  let (raw, d') = reg_get_raw r.entry d
  prepend (raw_to_words mb.word_swap r.entry.type raw)
      (read_loop fuel mb (addr + entry_words r.entry.type) end d')

-- `do_read` from the test of the quantity on.
pub read_span : RegModbus → ℕ → ℕ → ℕ → ℕ → Device → Option Reply
unfolding pdu_exception read_loop span_covered
read_span mb fc start qty pcap d =
    if ltb qty 1 || ltb max_read_qty qty
    then some (pdu_exception pcap fc exc_illegal_value, d)
    else if not (span_covered mb.table start qty)
    then some (pdu_exception pcap fc exc_illegal_address, d)
    else if ltb pcap ((2 + 2 * qty) % 2 ^ 16)
    then some ([], d)
    else prepend (fc ∷ 2 * qty % 256 ∷ []) (read_loop (qty + 1) mb start (start + qty) d)

pub do_read : RegModbus → List ℕ → ℕ → Device → Option Reply
unfolding read_span
do_read mb pdu pcap d = do
  fc ← get_elem? pdu 0
  if not (length pdu == 5)
      then some (pdu_exception pcap fc exc_illegal_value, d)
      else do start ← word_at pdu 1; qty ← word_at pdu 3; read_span mb fc start qty pcap d

-- The result of a write, as the response: the text given, an exception, or nothing.
abbrev pub answer : ℕ → ℕ → Bool → List ℕ → RegResult × Device → Reply
answer pcap fc broadcast echo (r, d) =
    if is_ok r
    then (if broadcast then [] else echo, d)
    else (pdu_exception pcap fc exc_device_failure, d)

-- `do_write_single` for the entry found.
pub write_entry : RegModbus → List ℕ → ℕ → ℕ → Bool → EntryRef → Device → Option Reply
unfolding pdu_exception words_to_raw reg_set_raw
write_entry mb pdu fc pcap broadcast r d =
    if not (entry_words r.entry.type == 1)
    then some (pdu_exception pcap fc exc_illegal_address, d)
    else if not broadcast && ltb pcap 5
    then some ([], d)
    else do
      raw ← words_to_raw mb.word_swap r.entry.type (drop 3 pdu)
      some (answer pcap fc broadcast (take 5 pdu) (reg_set_raw (some mb.table) r raw d))

-- What `entry_at` found: no entry here is refused like one word of a two-word value.
abbrev pub write_found : RegModbus → List ℕ → ℕ → ℕ → Bool → Device → Option EntryRef → Option Reply
write_found mb pdu fc pcap broadcast d none = some (pdu_exception pcap fc exc_illegal_address, d)
write_found mb pdu fc pcap broadcast d (some r) = write_entry mb pdu fc pcap broadcast r d

pub do_write_single : RegModbus → List ℕ → ℕ → Bool → Device → Option Reply
unfolding write_entry
do_write_single mb pdu pcap broadcast d = do
  fc ← get_elem? pdu 0
  if not (length pdu == 5)
      then some (pdu_exception pcap fc exc_illegal_value, d)
      else do addr ← word_at pdu 1; write_found mb pdu fc pcap broadcast d (entry_at mb.table addr)

-- A refused write ends the loop; after any other it goes on.
abbrev pub go_on :
    RegResult × Device → (Device → Option (RegResult × Device)) → Option (RegResult × Device)
go_on (res, d) next = if is_ok res then next d else some (res, d)

-- The loop of `do_write_multiple`, at the rest of the data: the first refused write ends it.
pub write_loop : ℕ → RegModbus → ℕ → ℕ → List ℕ → Device → Option (RegResult × Device)
write_loop zero mb addr end input d = none
write_loop (suc fuel) mb addr end input d = if not (ltb addr end) then some (reg_ok, d) else do
  r ← entry_at mb.table (addr % 2 ^ 16)
  raw ← words_to_raw mb.word_swap r.entry.type input
  go_on (reg_set_raw (some mb.table) r raw d) (
      write_loop fuel mb (addr + entry_words r.entry.type) end
        (drop (2 * entry_words r.entry.type) input))

-- `do_write_multiple` from the test of the quantity on.
pub write_span : RegModbus → List ℕ → ℕ → ℕ → ℕ → ℕ → ℕ → Bool → Device → Option Reply
unfolding pdu_exception write_loop span_covered
write_span mb pdu fc start qty bytes pcap broadcast d =
    if ltb qty 1
      || ltb max_write_qty qty
      || not (bytes == 2 * qty)
      || not (length pdu == (6 + bytes) % 2 ^ 16)
    then some (pdu_exception pcap fc exc_illegal_value, d)
    else if not (span_covered mb.table start qty)
    then some (pdu_exception pcap fc exc_illegal_address, d)
    else if not broadcast && ltb pcap 5
    then some ([], d)
    else do
      done ← write_loop (qty + 1) mb start (start + qty) (drop 6 pdu) d
      some (answer pcap fc broadcast (take 5 pdu) done)

pub do_write_multiple : RegModbus → List ℕ → ℕ → Bool → Device → Option Reply
unfolding write_span
do_write_multiple mb pdu pcap broadcast d = do
  fc ← get_elem? pdu 0
  if ltb (length pdu) 6 then some (pdu_exception pcap fc exc_illegal_value, d) else do
    start ← word_at pdu 1
    qty ← word_at pdu 3
    bytes ← get_elem? pdu 5
    write_span mb pdu fc start qty bytes pcap broadcast d

-- The switch of `pdu_handle` over the function code.
pub dispatch : RegModbus → List ℕ → ℕ → ℕ → Bool → Device → Option Reply
unfolding do_read do_write_single do_write_multiple
dispatch mb pdu fc pcap broadcast d =
    if fc == fc_read_holding || fc == fc_read_input
    then (if broadcast then some ([], d) else do_read mb pdu pcap d)
    else if fc == fc_write_single
    then do_write_single mb pdu pcap broadcast d
    else if fc == fc_write_multiple
    then do_write_multiple mb pdu pcap broadcast d
    else if broadcast
    then some ([], d)
    else some (pdu_exception pcap fc exc_illegal_function, d)

unfoldable pub pdu_handle : RegModbus → List ℕ → ℕ → Bool → Device → Option Reply
unfolding dispatch
pdu_handle mb pdu pcap broadcast d = do fc ← get_elem? pdu 0; dispatch mb pdu fc pcap broadcast d
