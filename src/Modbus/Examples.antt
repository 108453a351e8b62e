-- ===== src/Modbus/Examples.antt =====
-- Runs of the Modbus adapter, and its theorems at a slave of address 17 that serves the small table.
use regtable.Prelude.{ℕ, ◌≤◌, ◌≡◌, ◌⊎◌, ◌↔◌, refl, arith, ◌++◌, ◌%◌, ◌^◌}
use regtable.Prelude.{true, false, Option, none, some, List, [], ◌∷◌}
use regtable.Core.Types.{reg_i16, reg_ok, reg_err_table, EntryRef}
use regtable.Core.Memory.{load_raw}
use regtable.Core.Raw.{reg_set_raw, reg_get_raw}
use regtable.Core.Examples.{temp_ref, led, table, fresh}
use regtable.Modbus.Crc.{regmb_crc16}
use regtable.Modbus.Crc.Laws.{AllBytes}
use regtable.Modbus.Map.{RegModbus, entry_at, span_covered, regmb_init}
use regtable.Modbus.Map.Cover.{Tiled, done, tile, span_covered_iff}
use regtable.Modbus.Map.Init.{IsMap, regmb_init-ok_iff}
use regtable.Modbus.Words.{raw_to_words, words_to_raw}
use regtable.Modbus.Words.Laws.{words_to_raw-raw_to_words}
use regtable.Modbus.Pdu.{Reply, pdu_handle}
use regtable.Modbus.Pdu.Values.{values, pdu_handle-values}
use regtable.Modbus.Pdu.Replies.{Yields}
use regtable.Modbus.Frame.{crc_matches, regmb_process, regmb_process_tcp}
use regtable.Modbus.Frame.Response.{IsResponse, regmb_process-IsResponse}
use regtable.Modbus.Frame.Tcp.{IsTcpResponse, regmb_process_tcp-IsTcpResponse}
use regtable.Modbus.Frame.Corrupt.{regmb_process_damaged}

abbrev slave : RegModbus
slave = record { table = table; addr = 17; word_swap = false }

-- Write 258 to the register 1.
abbrev write_frame : List ℕ
write_frame = 17 ∷ 6 ∷ 0 ∷ 1 ∷ 1 ∷ 2 ∷ 90 ∷ 203 ∷ []

-- Read the registers 3 and 4 over TCP.
abbrev read_adu : List ℕ
read_adu = 0 ∷ 7 ∷ 0 ∷ 0 ∷ 0 ∷ 6 ∷ 17 ∷ 3 ∷ 0 ∷ 3 ∷ 0 ∷ 2 ∷ []

-- The bytes of a reply.
abbrev text_of : Option Reply → List ℕ
text_of none = []
text_of (some (out, d)) = out

echoed : text_of (regmb_process slave write_frame 256 fresh) ≡ write_frame
unfolding regmb_process crc_matches regmb_crc16 pdu_handle reg_set_raw words_to_raw entry_at
echoed = refl

answered :
    text_of (regmb_process_tcp slave read_adu 260 fresh)
    ≡ 0 ∷ 7 ∷ 0 ∷ 0 ∷ 0 ∷ 7 ∷ 17 ∷ 3 ∷ 4 ∷ 0 ∷ 0 ∷ 0 ∷ 0 ∷ []
unfolding regmb_process_tcp pdu_handle span_covered raw_to_words reg_get_raw load_raw entry_at
answered = refl

write_frame-AllBytes : AllBytes write_frame
write_frame-AllBytes = ground arith

read_adu-AllBytes : AllBytes read_adu
read_adu-AllBytes = ground arith

regmb_process-IsResponse_example :
    Yields (IsResponse slave write_frame 256 fresh) (regmb_process slave write_frame 256 fresh)
regmb_process-IsResponse_example =
    regmb_process-IsResponse slave write_frame 256 fresh (omega arith) write_frame-AllBytes

regmb_process_tcp-IsTcpResponse_example :
    Yields (IsTcpResponse read_adu 260 fresh) (regmb_process_tcp slave read_adu 260 fresh)
regmb_process_tcp-IsTcpResponse_example =
    regmb_process_tcp-IsTcpResponse slave read_adu 260 fresh read_adu-AllBytes

abbrev frame_head : List ℕ
frame_head = 17 ∷ 6 ∷ 0 ∷ []

abbrev frame_rest : List ℕ
frame_rest = 1 ∷ 2 ∷ 90 ∷ 203 ∷ []

write_frame-matches : crc_matches (frame_head ++ (1 ∷ frame_rest)) ≡ some true
unfolding crc_matches regmb_crc16
write_frame-matches = refl

-- The register 1 becomes the register 3.
regmb_process_damaged_example :
    regmb_process slave (frame_head ++ (3 ∷ frame_rest)) 256 fresh ≡ some ([], fresh)
regmb_process_damaged_example =
    regmb_process_damaged slave frame_head frame_rest 1 3 256 fresh (ground arith) (ground arith)
      (omega arith) (omega arith) (omega arith) (omega arith) write_frame-matches

span_covered_iff_example : (span_covered table 1 4 ≡ true) ↔ Tiled table 5 1
span_covered_iff_example = span_covered_iff table 1 4

-- Half of the counter.
span_cut : span_covered table 1 3 ≡ false
unfolding span_covered entry_at
span_cut = refl

regmb_init-ok_iff_example :
    (((1 ≤ 9) × (9 ≤ 247) × IsMap table.entries)
      × (regmb_init slave table 9
          ≡ (reg_ok, record { table = table; addr = 9; word_swap = false })))
    ⊎ ((¬ ((1 ≤ 9) × (9 ≤ 247) × IsMap table.entries))
        × ((regmb_init slave table 9).0 ≡ reg_err_table))
regmb_init-ok_iff_example = regmb_init-ok_iff slave table 9

overlapping : (regmb_init slave (record table { entries = led ∷ led ∷ [] }) 9).0 ≡ reg_err_table
unfolding regmb_init
overlapping = refl

words_to_raw-raw_to_words_example :
    words_to_raw true reg_i16 (raw_to_words true reg_i16 0xFFFFFFFE ++ (7 ∷ [])) ≡ some 0xFFFFFFFE
words_to_raw-raw_to_words_example =
    words_to_raw-raw_to_words true reg_i16 0xFFFFFFFE (7 ∷ []) (ground arith)

abbrev led_ref : EntryRef
led_ref = record { addr = 1001; entry = led }

temp_at : entry_at table (1 % 2 ^ 16) ≡ some temp_ref
unfolding entry_at
temp_at = refl

led_at : entry_at table (2 % 2 ^ 16) ≡ some led_ref
unfolding entry_at
led_at = refl

-- The two words of the first two entries.
abbrev two_words : Tiled table 3 1
two_words = tile temp_ref (omega arith) temp_at (tile led_ref (omega arith) led_at (done refl))

pdu_handle-values_example :
    pdu_handle slave (3 ∷ 0 ∷ 1 ∷ 0 ∷ 2 ∷ []) 100 false fresh
    ≡ some (3 ∷ 4 ∷ values slave two_words fresh, fresh)
pdu_handle-values_example =
    pdu_handle-values slave (3 ∷ 0 ∷ 1 ∷ 0 ∷ 2 ∷ []) 1 2 100 fresh two_words refl refl refl refl
      (omega arith) (omega arith) (omega arith) (refl, (refl, tt))
