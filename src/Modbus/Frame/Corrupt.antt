-- ===== src/Modbus/Frame/Corrupt.antt =====
-- A frame that was damaged on the line in one byte.
use regtable.Prelude.{ℕ, zero, suc, ◌+◌, ◌-◌, ◌/◌, ◌%◌, ◌^◌, ◌≤◌, ◌<◌, ◌≡◌, ◌≢◌, inl, inr, arith}
use regtable.Prelude.{true, ◌&&◌, ◌||◌, ap, sym, ◌∙◌, Bool-cases}
use regtable.Prelude.{some, List, [], ◌∷◌, ◌++◌, ltb, ◌==◌}
use regtable.Prelude.{length, get_elem?, take, length-append}
use regtable.Core.Types.{Device}
use regtable.Modbus.Map.{RegModbus}
use regtable.Modbus.Crc.{regmb_crc16}
use regtable.Modbus.Crc.Laws.{
  AllBytes, AllBytes-append, AllBytes-take, regmb_crc16-lt, regmb_crc16_residue,
}
use regtable.Modbus.Crc.Detect.{regmb_crc16_changed}
use regtable.Modbus.Pdu.Loops.{get_elem?-Returns}
use regtable.Modbus.Frame.Response.{crc_matches-Returns}
use regtable.Modbus.Frame.{frame_max, crc_matches, regmb_process}

-- A list is its front and its last two elements.
last_two :
    (k : ℕ) (xs : List ℕ) (low high : ℕ)
    → length xs ≡ k + 2
    → get_elem? xs k ≡ some low
    → get_elem? xs (suc k) ≡ some high
    → xs ≡ take k xs ++ (low ∷ high ∷ [])
last_two k [] low high size e e' = absurd (omega arith)
last_two zero (x ∷ []) low high size e e' = absurd (omega arith)
last_two zero (x ∷ y ∷ []) low high size e e' = ground arith
last_two zero (x ∷ y ∷ z ∷ xs) low high size e e' = absurd (omega arith)
last_two (suc k) (x ∷ xs) low high size e e' =
    ap (λ l. x ∷ l) (last_two k xs low high (omega arith) e e')

-- The last two bytes of a frame whose CRC is right.
crc_matches-last :
    (frame : List ℕ)
    → 4 ≤ length frame
    → crc_matches frame ≡ some true
    → let crc = regmb_crc16 (take (length frame - 2) frame) in
      frame ≡ take (length frame - 2) frame ++ (crc % 256 ∷ crc / 2 ^ 8 % 256 ∷ [])
unfolding crc_matches
crc_matches-last frame long ok =
    let k = length frame - 2 in
    let crc = regmb_crc16 (take k frame) in
    let (low, e) = get_elem?-Returns frame k (omega arith) in
    let (high, e') = get_elem?-Returns frame (length frame - 1) (omega arith) in
    let tests : some (low == crc % 256 && high == crc / 2 ^ 8 % 256) ≡ some true =
      sym (rw (e, e')) ∙ ok in
    let low_right : low ≡ crc % 256 = ground arith in
    let high_right : high ≡ crc / 2 ^ 8 % 256 = ground arith in
    let next : get_elem? frame (suc k) ≡ some high = ap (get_elem? frame) (omega arith) ∙ e' in
    last_two k frame low high (omega arith) e next
    ∙ ap (λ l. take k frame ++ l) (ap (λ a. a ∷ high ∷ []) low_right)
    ∙ ap (λ a. take k frame ++ (crc % 256 ∷ a ∷ [])) high_right

-- A frame that ends in its CRC has the CRC zero as a whole.
crc_matches-residue :
    (frame : List ℕ)
    → AllBytes frame
    → 4 ≤ length frame
    → crc_matches frame ≡ some true
    → regmb_crc16 frame ≡ 0
crc_matches-residue frame all long ok =
    let front = take (length frame - 2) frame in
    let bytes = AllBytes-take (length frame - 2) frame all in
    let crc = regmb_crc16 front in
    let high : crc / 2 ^ 8 % 256 ≡ crc / 256 = omega (arith, regmb_crc16-lt front bytes) in
    ap regmb_crc16 (crc_matches-last frame long ok)
    ∙ ap (λ a. regmb_crc16 (front ++ (crc % 256 ∷ a ∷ []))) high
    ∙ regmb_crc16_residue front bytes

damaged-fails :
    (before after : List ℕ) (b b' : ℕ)
    → AllBytes before
    → AllBytes after
    → b < 256
    → b' < 256
    → b ≢ b'
    → 4 ≤ length (before ++ (b ∷ after))
    → crc_matches (before ++ (b ∷ after)) ≡ some true
    → crc_matches (before ++ (b' ∷ after)) ≢ some true
damaged-fails before after b b' hx hy hb hb' differ long ok ok' =
    regmb_crc16_changed before after b b' hx hy hb hb' differ (
      crc_matches-residue (before ++ (b ∷ after)) (AllBytes-append before (b ∷ after) hx (hb, hy))
        long ok
      ∙ sym (
          crc_matches-residue (before ++ (b' ∷ after))
            (AllBytes-append before (b' ∷ after) hx (hb', hy))
            (omega (arith, length-append before (b ∷ after), length-append before (b' ∷ after)))
            ok'))

rejected :
    (mb : RegModbus) (frame : List ℕ) (resp_cap : ℕ) (d : Device)
    → crc_matches frame ≢ some true
    → 4 ≤ length frame
    → regmb_process mb frame resp_cap d ≡ some ([], d)
unfolding regmb_process
rejected mb frame resp_cap d bad long =
    let (matches, e) = crc_matches-Returns frame long in
    elim (Bool-cases (ltb (length frame) 4 || ltb frame_max (length frame))) [
      | inl outside ↦ rw outside
      | inr within ↦ elim (Bool-cases matches) [
        | inl right ↦ absurd (bad (e ∙ ap some right))
        | inr wrong ↦ rw (within, e, wrong)
      ]
    ]

-- A frame with the right CRC that is damaged in exactly one byte, be it the address, the PDU or
-- the CRC itself, is met with silence and changes nothing.
pub regmb_process_damaged :
    (mb : RegModbus) (before after : List ℕ) (b b' resp_cap : ℕ) (d : Device)
    → AllBytes before
    → AllBytes after
    → b < 256
    → b' < 256
    → b ≢ b'
    → 4 ≤ length (before ++ (b ∷ after))
    → crc_matches (before ++ (b ∷ after)) ≡ some true
    → regmb_process mb (before ++ (b' ∷ after)) resp_cap d ≡ some ([], d)
regmb_process_damaged mb before after b b' resp_cap d hx hy hb hb' differ long ok =
    rejected mb (before ++ (b' ∷ after)) resp_cap d
      (damaged-fails before after b b' hx hy hb hb' differ long ok)
      (omega (arith, length-append before (b ∷ after), length-append before (b' ∷ after)))
