-- ===== src/Modbus/Crc.antt =====
-- `regmb_crc16` of src/regtable_modbus.c.
pub mod Laws
pub mod Detect
use regtable.Prelude.{ℕ, zero, suc, ◌/◌, ◌%◌, List, [], ◌∷◌, ◌==◌, if◌then◌else◌, bit_xor}

-- One round of the inner loop.
pub crc_bit : ℕ → ℕ
crc_bit crc = if crc % 2 == 1 then bit_xor (crc / 2) 0xA001 else crc / 2

-- `n` rounds of it.
pub crc_rounds : ℕ → ℕ → ℕ
unfolding crc_bit
crc_rounds zero crc = crc
crc_rounds (suc n) crc = crc_rounds n (crc_bit crc)

pub crc_byte : ℕ → ℕ → ℕ
unfolding crc_rounds
crc_byte crc b = crc_rounds 8 (bit_xor crc b)

pub crc_from : ℕ → List ℕ → ℕ
unfolding crc_byte
crc_from crc [] = crc
crc_from crc (b ∷ bs) = crc_from (crc_byte crc b) bs

unfoldable pub regmb_crc16 : List ℕ → ℕ
unfolding crc_from
regmb_crc16 bytes = crc_from 0xFFFF bytes
