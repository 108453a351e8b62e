-- ===== src/Modbus/Frame.antt =====
-- The public entry points of src/regtable_modbus.c: `regmb_process`, one RTU frame, and
-- `regmb_process_tcp`, one TCP ADU. Each returns the response (empty: stay silent) and the device.
pub mod Access
pub mod Response
pub mod Tcp
pub mod Corrupt
use regtable.Prelude.{
  ℕ, zero, suc, ◌+◌, ◌-◌, ◌*◌, ◌/◌, ◌%◌, ◌^◌, Bool, true, false, not, ◌&&◌, ◌||◌,
}
use regtable.Prelude.{Option, none, some, List, [], ◌∷◌, ◌++◌, ltb, ◌==◌, if◌then◌else◌, ◌>>=◌}
use regtable.Prelude.{length, get_elem?, take, drop}
use regtable.Core.Types.{Device}
use regtable.Modbus.Map.{RegModbus}
use regtable.Modbus.Words.{word_at}
use regtable.Modbus.Crc.{regmb_crc16}
use regtable.Modbus.Pdu.{Reply, pdu_handle}

-- REGMB_FRAME_MAX and REGMB_TCP_ADU_MAX
abbrev pub frame_max : ℕ
frame_max = 256

abbrev pub tcp_adu_max : ℕ
tcp_adu_max = 260

abbrev pub is_empty : List ℕ → Bool
is_empty [] = true
is_empty (b ∷ bs) = false

-- The CRC behind the bytes, low byte first.
abbrev pub seal : List ℕ → List ℕ
seal bytes = let crc = regmb_crc16 bytes in bytes ++ (crc % 256 ∷ crc / 2 ^ 8 % 256 ∷ [])

-- Does the frame end in the CRC of the rest of it?
unfoldable pub crc_matches : List ℕ → Option Bool
crc_matches frame = do
  let crc = regmb_crc16 (take (length frame - 2) frame)
  low ← get_elem? frame (length frame - 2)
  high ← get_elem? frame (length frame - 1)
  some (low == crc % 256 && high == crc / 2 ^ 8 % 256)

-- The envelope of a response.
abbrev pub envelope : ℕ → Bool → Reply → Reply
envelope addr broadcast (out, d) = (if is_empty out || broadcast then [] else seal (addr ∷ out), d)

-- `resp_cap - 3`, or 0
abbrev pub pdu_room : ℕ → ℕ
pdu_room resp_cap = if ltb 3 resp_cap then resp_cap - 3 else 0

-- A frame whose CRC is right.
pub answer_frame : RegModbus → List ℕ → ℕ → Device → Option Reply
answer_frame mb frame resp_cap d = do
  first ← get_elem? frame 0
  let broadcast = first == 0
  if not broadcast && not (first == mb.addr) then some ([], d) else do
    reply ← pdu_handle mb (take (length frame - 3) (drop 1 frame)) (pdu_room resp_cap) broadcast d
    some (envelope mb.addr broadcast reply)

unfoldable pub regmb_process : RegModbus → List ℕ → ℕ → Device → Option Reply
unfolding crc_matches answer_frame
regmb_process mb frame resp_cap d =
    if ltb (length frame) 4 || ltb frame_max (length frame) then some ([], d) else do
      matches ← crc_matches frame
      if matches then answer_frame mb frame resp_cap d else some ([], d)

-- The header echoed in front of a response PDU, `n` bytes long: the transaction, the protocol, the
-- length of the unit and the PDU, the unit.
abbrev pub mbap : ℕ → ℕ → ℕ → Reply → Reply
mbap t0 t1 unit ([], d) = ([], d)
mbap t0 t1 unit (b ∷ out, d) =
    let n = length (b ∷ out) in
    (t0 ∷ t1 ∷ 0 ∷ 0 ∷ (n + 1) / 2 ^ 8 % 256 ∷ (n + 1) % 256 ∷ unit ∷ b ∷ out, d)

-- An ADU whose header is right.
pub answer_adu : RegModbus → List ℕ → ℕ → Device → Option Reply
answer_adu mb adu resp_cap d = do
  t0 ← get_elem? adu 0
  t1 ← get_elem? adu 1
  unit ← get_elem? adu 6
  reply ← pdu_handle mb (drop 7 adu) (resp_cap - 7) false d
  some (mbap t0 t1 unit reply)

unfoldable pub regmb_process_tcp : RegModbus → List ℕ → ℕ → Device → Option Reply
unfolding answer_adu
regmb_process_tcp mb adu resp_cap d =
    if ltb (length adu) 8 || ltb tcp_adu_max (length adu) then some ([], d) else do
      pid ← word_at adu 2
      mlen ← word_at adu 4
      if not (pid == 0) || not (mlen == (length adu - 6) % 2 ^ 16) || ltb resp_cap 7
          then some ([], d)
          else answer_adu mb adu resp_cap d
