-- ===== src/Modbus/Crc/Laws.antt =====
-- The CRC of a frame that carries its CRC is zero.
use regtable.Prelude.{ℕ, zero, suc, ◌+◌, ◌*◌, ◌/◌, ◌%◌, ◌^◌, ◌≤◌, ◌<◌, ◌≡◌, refl, arith, ap, ◌∙◌}
use regtable.Prelude.{take, drop, get_elem?, some, List, [], ◌∷◌, ◌++◌, bit_xor}
use regtable.Prelude.Bits.{bit_xor_step, bit_xor-lt, bit_xor-zero}
use native.Mathlib.Nat.{
  pow-suc, one-le-pow, div-add-mod, mod-lt, mod-eq_of_lt, add-mul-mod_self_left,
}
use regtable.Modbus.Crc.{crc_bit, crc_rounds, crc_byte, crc_from, regmb_crc16}

pub crc_bit-lt : (x : ℕ) → x < 2 ^ 16 → crc_bit x < 2 ^ 16
unfolding crc_bit
crc_bit-lt x h = ground (arith, bit_xor-lt 16 (x / 2) 0xA001)

crc_rounds-lt : (n x : ℕ) → x < 2 ^ 16 → crc_rounds n x < 2 ^ 16
unfolding crc_rounds
crc_rounds-lt zero x h = h
crc_rounds-lt (suc n) x h = crc_rounds-lt n (crc_bit x) (crc_bit-lt x h)

pub crc_byte-lt : (x b : ℕ) → x < 2 ^ 16 → b < 256 → crc_byte x b < 2 ^ 16
unfolding crc_byte
crc_byte-lt x b h hb = crc_rounds-lt 8 (bit_xor x b) (bit_xor-lt 16 x b h (omega arith))

crc_bit_even : (x : ℕ) → crc_bit (x * 2) ≡ x
unfolding crc_bit
crc_bit_even x = ground arith

-- Rounds on a state whose low bits are clear only shift.
crc_rounds_even : (n x : ℕ) → crc_rounds n (x * 2 ^ n) ≡ x
unfolding crc_rounds
crc_rounds_even zero x = omega arith
crc_rounds_even (suc n) x = rw (twice, crc_bit_even) (crc_rounds_even n x)
  where
    twice : x * 2 ^ suc n ≡ x * 2 ^ n * 2
    twice = omega (arith, ap (λ (t : ℕ). x * t) (pow-suc 2 n))

mod_two : (w p : ℕ) → 1 ≤ p → w % (p * 2) ≡ w % 2 + 2 * (w / 2 % p)
mod_two w p h =
    let r = w / 2 % p in
    let split : w ≡ 2 * r + w % 2 + p * 2 * (w / 2 / p) = omega (arith, div-add-mod (w / 2) p) in
    let small : 2 * r + w % 2 < p * 2 = omega (arith, mod-lt (w / 2) h) in
    ap (λ (t : ℕ). t % (p * 2)) split
    ∙ add-mul-mod_self_left (2 * r + w % 2) (p * 2) (w / 2 / p)
    ∙ mod-eq_of_lt small
    ∙ omega arith

-- The exclusive or with the low bits takes them away.
bit_xor_low : (k c : ℕ) → bit_xor c (c % 2 ^ k) + c % 2 ^ k ≡ c
bit_xor_low zero c = omega (arith, ap (bit_xor c) (mod_one c), bit_xor-zero c)
  where
    mod_one : (n : ℕ) → n % 2 ^ 0 ≡ 0
    mod_one n = omega arith
bit_xor_low (suc k) c =
    let r = c % 2 ^ suc k in
    let low : r ≡ c % 2 + 2 * (c / 2 % 2 ^ k) =
      ap (λ (t : ℕ). c % t) (pow-suc 2 k) ∙ mod_two c (2 ^ k) (one-le-pow k 2 (omega arith)) in
    let half : bit_xor (c / 2) (r / 2) ≡ bit_xor (c / 2) (c / 2 % 2 ^ k) =
      ap (bit_xor (c / 2)) (omega (arith, low)) in
    omega (arith, bit_xor_step c r, low, half, bit_xor_low k (c / 2))

crc_byte_low : (c : ℕ) → crc_byte c (c % 256) ≡ c / 256
unfolding crc_byte
crc_byte_low c = rw cleared (crc_rounds_even 8 (c / 256))
  where
    cleared : bit_xor c (c % 256) ≡ c / 256 * 2 ^ 8
    cleared = omega (arith, bit_xor_low 8 c)

pub crc_from-append : (c : ℕ) (xs ys : List ℕ) → crc_from c (xs ++ ys) ≡ crc_from (crc_from c xs) ys
unfolding crc_from
crc_from-append c [] ys = refl
crc_from-append c (x ∷ xs) ys = crc_from-append (crc_byte c x) xs ys

abbrev pub AllBytes : List ℕ → Type 0
AllBytes [] = Unit
AllBytes (b ∷ bs) = (b < 256) × AllBytes bs

pub AllBytes-append : (xs ys : List ℕ) → AllBytes xs → AllBytes ys → AllBytes (xs ++ ys)
AllBytes-append [] ys hx hy = hy
AllBytes-append (x ∷ xs) ys hx hy = (hx.0, AllBytes-append xs ys hx.1 hy)

pub AllBytes-take : (n : ℕ) (xs : List ℕ) → AllBytes xs → AllBytes (take n xs)
AllBytes-take zero xs h = tt
AllBytes-take (suc n) [] h = tt
AllBytes-take (suc n) (x ∷ xs) h = (h.0, AllBytes-take n xs h.1)

pub AllBytes-drop : (n : ℕ) (xs : List ℕ) → AllBytes xs → AllBytes (drop n xs)
AllBytes-drop zero xs h = h
AllBytes-drop (suc n) [] h = tt
AllBytes-drop (suc n) (x ∷ xs) h = AllBytes-drop n xs h.1

pub AllBytes-get_elem? : (xs : List ℕ) (i b : ℕ) → AllBytes xs → get_elem? xs i ≡ some b → b < 256
AllBytes-get_elem? [] i b h e = cc
AllBytes-get_elem? (x ∷ xs) zero b h e = ground arith
AllBytes-get_elem? (x ∷ xs) (suc i) b h e = AllBytes-get_elem? xs i b h.1 e

pub crc_from-lt : (bs : List ℕ) (c : ℕ) → AllBytes bs → c < 2 ^ 16 → crc_from c bs < 2 ^ 16
unfolding crc_from
crc_from-lt [] c bytes h = h
crc_from-lt (b ∷ bs) c bytes h = crc_from-lt bs (crc_byte c b) bytes.1 (crc_byte-lt c b h bytes.0)

pub regmb_crc16-lt : (bs : List ℕ) → AllBytes bs → regmb_crc16 bs < 2 ^ 16
unfolding regmb_crc16
regmb_crc16-lt bs bytes = crc_from-lt bs 0xFFFF bytes (omega arith)

-- With its CRC behind it, low byte first, a text has the CRC zero.
pub regmb_crc16_residue :
    (bs : List ℕ)
    → AllBytes bs
    → let crc = regmb_crc16 bs in regmb_crc16 (bs ++ (crc % 256 ∷ crc / 256 ∷ [])) ≡ 0
unfolding regmb_crc16
regmb_crc16_residue bs bytes =
    let c = crc_from 0xFFFF bs in
    let small : c < 2 ^ 16 = crc_from-lt bs 0xFFFF bytes (omega arith) in
    let high : crc_byte (c / 256) (c / 256) ≡ 0 =
      ap (crc_byte (c / 256)) (omega arith) ∙ crc_byte_low (c / 256) ∙ omega arith in
    crc_from-append 0xFFFF bs (c % 256 ∷ c / 256 ∷ []) ∙ rw (crc_byte_low c) high
