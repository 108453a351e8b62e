-- ===== src/Modbus/Crc/Detect.antt =====
-- A change of one byte changes the CRC.
use regtable.Prelude.{ℕ, zero, suc, ◌/◌, ◌%◌, ◌^◌, ◌<◌, ◌≡◌, ◌≢◌, arith, ap, ◌∙◌, sym}
use regtable.Prelude.{List, [], ◌∷◌, ◌++◌, bit_xor, ◌⊎◌, inl, inr}
use regtable.Prelude.Bits.{bit, bit-bit_xor, bit_xor-lt, bit_xor_cancel, bit_xor_comm, bit_above}
use regtable.Modbus.Crc.{crc_bit, crc_rounds, crc_byte, crc_from, regmb_crc16}
use regtable.Modbus.Crc.Laws.{AllBytes, crc_bit-lt, crc_byte-lt, crc_from-lt, crc_from-append}

-- The polynomial has the top bit, which a shifted state has not.
top_bit : (x : ℕ) → x < 2 ^ 15 → bit (bit_xor x 0xA001) 15 ≡ 1
top_bit x h = omega (arith, bit-bit_xor x 0xA001 15, bit_above 15 x h)

crc_bit_parity :
    (x : ℕ)
    → ((x % 2 ≡ 0) × (crc_bit x ≡ x / 2)) ⊎ ((x % 2 ≡ 1) × (crc_bit x ≡ bit_xor (x / 2) 0xA001))
unfolding crc_bit
crc_bit_parity x = ground arith

mixed : (x y : ℕ) → x < 2 ^ 16 → y < 2 ^ 16 → x / 2 ≢ bit_xor (y / 2) 0xA001
mixed x y hx hy e =
    omega (
      arith,
      ap (λ w. bit w 15) e,
      bit_above 15 (x / 2) (omega arith),
      top_bit (y / 2) (omega arith),
    )

same_upper :
    (x y : ℕ)
    → x < 2 ^ 16
    → y < 2 ^ 16
    → bit_xor (x / 2) 0xA001 ≡ bit_xor (y / 2) 0xA001
    → x / 2 ≡ y / 2
same_upper x y hx hy e =
    sym (bit_xor_cancel 16 (x / 2) 0xA001 (omega arith) (omega arith))
    ∙ ap (λ w. bit_xor w 0xA001) e
    ∙ bit_xor_cancel 16 (y / 2) 0xA001 (omega arith) (omega arith)

crc_bit_injective : (x y : ℕ) → x < 2 ^ 16 → y < 2 ^ 16 → crc_bit x ≡ crc_bit y → x ≡ y
crc_bit_injective x y hx hy e = elim (crc_bit_parity x) [
  | inl (px, ex) ↦ elim (crc_bit_parity y) [
    | inl (py, ey) ↦ omega (arith, e, ex, ey)
    | inr (py, ey) ↦ absurd (mixed x y hx hy (sym ex ∙ e ∙ ey))
  ]
  | inr (px, ex) ↦ elim (crc_bit_parity y) [
    | inl (py, ey) ↦ absurd (mixed y x hy hx (sym ey ∙ sym e ∙ ex))
    | inr (py, ey) ↦ omega (arith, same_upper x y hx hy (sym ex ∙ e ∙ ey))
  ]
]

crc_rounds_injective :
    (n x y : ℕ) → x < 2 ^ 16 → y < 2 ^ 16 → crc_rounds n x ≡ crc_rounds n y → x ≡ y
unfolding crc_rounds
crc_rounds_injective zero x y hx hy e = e
crc_rounds_injective (suc n) x y hx hy e =
    crc_bit_injective x y hx hy
      (crc_rounds_injective n (crc_bit x) (crc_bit y) (crc_bit-lt x hx) (crc_bit-lt y hy) e)

-- One byte takes two states to two states, and two bytes take one state to two states.
crc_byte_state :
    (x y b : ℕ) → x < 2 ^ 16 → y < 2 ^ 16 → b < 256 → crc_byte x b ≡ crc_byte y b → x ≡ y
unfolding crc_byte
crc_byte_state x y b hx hy hb e =
    let fits : b < 2 ^ 16 = omega arith in
    sym (bit_xor_cancel 16 x b hx fits)
    ∙ ap (λ w. bit_xor w b)
        (crc_rounds_injective 8 (bit_xor x b) (bit_xor y b) (bit_xor-lt 16 x b hx fits)
          (bit_xor-lt 16 y b hy fits) e)
    ∙ bit_xor_cancel 16 y b hy fits

crc_byte_byte :
    (x b b' : ℕ) → x < 2 ^ 16 → b < 256 → b' < 256 → crc_byte x b ≡ crc_byte x b' → b ≡ b'
unfolding crc_byte
crc_byte_byte x b b' hx hb hb' e =
    let fits : b < 2 ^ 16 = omega arith in
    let fits' : b' < 2 ^ 16 = omega arith in
    sym (bit_xor_cancel 16 b x fits hx)
    ∙ ap (λ w. bit_xor w x)
        (bit_xor_comm 16 b x fits hx
          ∙ crc_rounds_injective 8 (bit_xor x b) (bit_xor x b') (bit_xor-lt 16 x b hx fits)
              (bit_xor-lt 16 x b' hx fits') e
          ∙ bit_xor_comm 16 x b' hx fits')
    ∙ bit_xor_cancel 16 b' x fits' hx

crc_from_state :
    (bs : List ℕ) (x y : ℕ)
    → AllBytes bs
    → x < 2 ^ 16
    → y < 2 ^ 16
    → crc_from x bs ≡ crc_from y bs
    → x ≡ y
unfolding crc_from
crc_from_state [] x y bytes hx hy e = e
crc_from_state (b ∷ bs) x y bytes hx hy e = crc_byte_state x y b hx hy bytes.0 (
    crc_from_state bs (crc_byte x b) (crc_byte y b) bytes.1 (crc_byte-lt x b hx bytes.0)
      (crc_byte-lt y b hy bytes.0) e)

-- Two byte strings that differ in exactly one byte have different CRCs.
pub regmb_crc16_changed :
    (before after : List ℕ) (b b' : ℕ)
    → AllBytes before
    → AllBytes after
    → b < 256
    → b' < 256
    → b ≢ b'
    → regmb_crc16 (before ++ (b ∷ after)) ≢ regmb_crc16 (before ++ (b' ∷ after))
unfolding regmb_crc16
regmb_crc16_changed before after b b' bytes bytes' hb hb' differ same =
    let c = crc_from 0xFFFF before in
    let hc : c < 2 ^ 16 = crc_from-lt before 0xFFFF bytes (omega arith) in
    let one : crc_from (crc_byte c b) after ≡ crc_from (crc_byte c b') after =
      sym (crc_from-append 0xFFFF before (b ∷ after))
      ∙ same
      ∙ crc_from-append 0xFFFF before (b' ∷ after) in
    differ (
      crc_byte_byte c b b' hc hb hb' (
        crc_from_state after (crc_byte c b) (crc_byte c b') bytes' (crc_byte-lt c b hc hb)
          (crc_byte-lt c b' hc hb') one))
