-- ===== src/Prelude/Bits.antt =====
-- The bit operations of C on words that are native numbers, digit by digit: the step equations
-- that the native operations lack, and the value of each bit.
mod Step
pub use Step.*
use Prim.Native.Nat.{min, max, bit_and-bitwise}
use regtable.Prelude.{ℕ, zero, suc, ◌+◌, ◌-◌, ◌*◌, ◌/◌, ◌%◌, ◌^◌, ◌≤◌, ◌<◌, ◌≡◌, ◌≢◌, refl}
use regtable.Prelude.{ap, bit_and, bit_or, bit_xor, arith, ◌==◌, if◌then◌else◌}
use native.Mathlib.Nat.{pow-suc, one-le-pow, mul-one}

-- Bit `k` of a word, as 0 or 1.
abbrev pub bit : ℕ → ℕ → ℕ
bit w zero = w % 2
bit w (suc k) = bit (w / 2) k

pub bit-lt : (w k : ℕ) → bit w k < 2
bit-lt w zero = omega arith
bit-lt w (suc k) = bit-lt (w / 2) k

pub bit-zero : (k : ℕ) → bit 0 k ≡ 0
bit-zero zero = refl
bit-zero (suc k) = bit-zero k

-- The bits of the results of `|`, `&` and `^`.
pub bit-bit_or : (a b k : ℕ) → bit (bit_or a b) k ≡ max (bit a k) (bit b k)
bit-bit_or a b zero = omega (arith, bit_or_step a b)
bit-bit_or a b (suc k) = rw half (bit-bit_or (a / 2) (b / 2) k)
  where
    half : bit_or a b / 2 ≡ bit_or (a / 2) (b / 2)
    half = omega (arith, bit_or_step a b)

pub bit-bit_and : (a b k : ℕ) → bit (bit_and a b) k ≡ min (bit a k) (bit b k)
bit-bit_and a b zero = omega (arith, bit_and_step a b)
bit-bit_and a b (suc k) = rw half (bit-bit_and (a / 2) (b / 2) k)
  where
    half : bit_and a b / 2 ≡ bit_and (a / 2) (b / 2)
    half = omega (arith, bit_and_step a b)

-- `1 << k` has the bit `k` alone.
pub bit-pow : (k j : ℕ) → bit (2 ^ k) j ≡ (if j == k then 1 else 0)
bit-pow zero zero = refl
bit-pow zero (suc j) = ground (arith, bit-zero j)
bit-pow (suc k) zero = ground (arith, pow-suc 2 k)
bit-pow (suc k) (suc j) = rw half (ground (arith, bit-pow k j))
  where
    half : 2 ^ suc k / 2 ≡ 2 ^ k
    half = omega (arith, pow-suc 2 k)

pub pow-lt : (k n : ℕ) → k < n → 2 ^ k < 2 ^ n
pow-lt k zero h = absurd (omega arith)
pow-lt zero (suc n) h = omega (arith, pow-suc 2 n, one-le-pow n 2)
pow-lt (suc k) (suc n) h = omega (arith, pow-suc 2 n, pow-suc 2 k, pow-lt k n (omega arith))

-- `~w` on `n` bits turns every bit round.
pub bit-complement : (n w j : ℕ) → w < 2 ^ n → j < n → bit (2 ^ n - 1 - w) j ≡ 1 - bit w j
bit-complement zero w j fits h = absurd (omega arith)
bit-complement (suc n) w zero fits h = omega (arith, pow-suc 2 n)
bit-complement (suc n) w (suc j) fits h =
    rw half (bit-complement n (w / 2) j (omega (arith, pow-suc 2 n)) (omega arith))
  where
    half : (2 ^ suc n - 1 - w) / 2 ≡ 2 ^ n - 1 - w / 2
    half = omega (arith, pow-suc 2 n)

pub bit-bit_xor : (a b k : ℕ) → bit (bit_xor a b) k ≡ (bit a k + bit b k) % 2
bit-bit_xor a b zero = omega (arith, bit_xor_step a b)
bit-bit_xor a b (suc k) = rw half (bit-bit_xor (a / 2) (b / 2) k)
  where
    half : bit_xor a b / 2 ≡ bit_xor (a / 2) (b / 2)
    half = omega (arith, bit_xor_step a b)

-- The results stay within the width of the operands.
pub bit_or-lt : (n a b : ℕ) → a < 2 ^ n → b < 2 ^ n → bit_or a b < 2 ^ n
bit_or-lt zero zero zero ha hb = omega arith
bit_or-lt zero zero (suc b) ha hb = absurd (omega arith)
bit_or-lt zero (suc a) b ha hb = absurd (omega arith)
bit_or-lt (suc n) a b ha hb = omega (
  arith,
  pow-suc 2 n,
  bit_or_step a b,
  bit_or-lt n (a / 2) (b / 2) (omega (arith, pow-suc 2 n)) (omega (arith, pow-suc 2 n)),
)

zero-bit_and : (w : ℕ) → bit_and 0 w ≡ 0
zero-bit_and w = bit_and-bitwise 0 w

pub bit_and-lt : (n a b : ℕ) → a < 2 ^ n → bit_and a b < 2 ^ n
bit_and-lt zero zero b ha = omega (arith, zero-bit_and b)
bit_and-lt zero (suc a) b ha = absurd (omega arith)
bit_and-lt (suc n) a b ha = omega (
  arith,
  pow-suc 2 n,
  bit_and_step a b,
  bit_and-lt n (a / 2) (b / 2) (omega (arith, pow-suc 2 n)),
)

pub bit_xor-lt : (n a b : ℕ) → a < 2 ^ n → b < 2 ^ n → bit_xor a b < 2 ^ n
bit_xor-lt zero zero zero ha hb = omega arith
bit_xor-lt zero zero (suc b) ha hb = absurd (omega arith)
bit_xor-lt zero (suc a) b ha hb = absurd (omega arith)
bit_xor-lt (suc n) a b ha hb = omega (
  arith,
  pow-suc 2 n,
  bit_xor_step a b,
  bit_xor-lt n (a / 2) (b / 2) (omega (arith, pow-suc 2 n)) (omega (arith, pow-suc 2 n)),
)

-- Two words of `n` bits with the same bits are the same word.
pub bit_ext : (n a b : ℕ) → a < 2 ^ n → b < 2 ^ n → ((j : ℕ) → j < n → bit a j ≡ bit b j) → a ≡ b
bit_ext zero a b ha hb same = omega arith
bit_ext (suc n) a b ha hb same =
    let upper : a / 2 ≡ b / 2 =
      bit_ext n (a / 2) (b / 2) (omega (arith, pow-suc 2 n)) (omega (arith, pow-suc 2 n))
        (λ j h. same (suc j) (omega arith)) in
    omega (arith, same 0 (omega arith))

bit_and-zero_upto : (w bound : ℕ) → w ≤ bound → bit_and w 0 ≡ 0
bit_and-zero_upto zero bound h = refl
bit_and-zero_upto (suc w) zero h = absurd (omega arith)
bit_and-zero_upto (suc w) (suc bound) h =
    let halved = bit_and-zero_upto (suc w / 2) bound (omega arith) in
    omega (arith, halved, bit_and_step (suc w) 0)

-- `w & (1 << k)` is not zero exactly when bit `k` is set.
pub bit_and-pow : (w k : ℕ) → bit_and w (2 ^ k) ≡ bit w k * 2 ^ k
bit_and-pow w zero =
    omega (arith, bit_and_step w 1, bit_and-zero_upto (w / 2) (w / 2) (omega arith))
bit_and-pow w (suc k) = omega (
  arith,
  bit_and_step w (2 ^ suc k),
  pow-suc 2 k,
  ap (λ t. bit_and (w / 2) t) half,
  bit_and-pow (w / 2) k,
  ap (λ (t : ℕ). bit (w / 2) k * t) (pow-suc 2 k),
)
  where
    half : 2 ^ suc k / 2 ≡ 2 ^ k
    half = omega (arith, pow-suc 2 k)

-- `w |= 1 << k` sets bit `k` and leaves the others.
pub bit-set : (w k j : ℕ) → bit (bit_or w (2 ^ k)) j ≡ (if j == k then 1 else bit w j)
bit-set w k j = ground (arith, bit-bit_or w (2 ^ k) j, bit-pow k j, bit-lt w j)

-- `w &= ~(1 << k)` clears bit `k` and leaves the others, on words of `n` bits.
pub bit-clear :
    (n w k j : ℕ)
    → k < n
    → j < n
    → bit (bit_and w (2 ^ n - 1 - 2 ^ k)) j ≡ (if j == k then 0 else bit w j)
bit-clear n w k j hk hj = ground (
  arith,
  bit-bit_and w (2 ^ n - 1 - 2 ^ k) j,
  bit-complement n (2 ^ k) j,
  bit-pow k j,
  pow-lt k n hk,
  bit-lt w j,
)

-- Exclusive or with the same word twice gives the first word back.
pub bit_xor_cancel : (n a b : ℕ) → a < 2 ^ n → b < 2 ^ n → bit_xor (bit_xor a b) b ≡ a
bit_xor_cancel n a b ha hb =
    bit_ext n _ a (bit_xor-lt n (bit_xor a b) b (bit_xor-lt n a b ha hb) hb) ha (λ j h.
      omega (arith, bit-bit_xor (bit_xor a b) b j, bit-bit_xor a b j, bit-lt a j, bit-lt b j))

pub bit_xor_comm : (n a b : ℕ) → a < 2 ^ n → b < 2 ^ n → bit_xor a b ≡ bit_xor b a
bit_xor_comm n a b ha hb =
    bit_ext n _ _ (bit_xor-lt n a b ha hb) (bit_xor-lt n b a hb ha)
      (λ j h. omega (arith, bit-bit_xor a b j, bit-bit_xor b a j))

bit_xor-zero_upto : (w bound : ℕ) → w ≤ bound → bit_xor w 0 ≡ w
bit_xor-zero_upto zero bound h = refl
bit_xor-zero_upto (suc w) zero h = absurd (omega arith)
bit_xor-zero_upto (suc w) (suc bound) h =
    let halved = bit_xor-zero_upto (suc w / 2) bound (omega arith) in
    omega (arith, halved, bit_xor_step (suc w) 0)

pub bit_xor-zero : (a : ℕ) → bit_xor a 0 ≡ a
bit_xor-zero a = bit_xor-zero_upto a a (omega arith)

bit_or-zero_upto : (w bound : ℕ) → w ≤ bound → bit_or w 0 ≡ w
bit_or-zero_upto zero bound h = refl
bit_or-zero_upto (suc w) zero h = absurd (omega arith)
bit_or-zero_upto (suc w) (suc bound) h =
    let halved = bit_or-zero_upto (suc w / 2) bound (omega arith) in
    omega (arith, halved, bit_or_step (suc w) 0)

bit_or-zero : (a : ℕ) → bit_or a 0 ≡ a
bit_or-zero a = bit_or-zero_upto a a (omega arith)

-- `(q << k) | r` is a sum where `r` fits the `k` bits that the shift leaves free.
pub bit_or-shifted : (k q r : ℕ) → r < 2 ^ k → bit_or (q * 2 ^ k) r ≡ q * 2 ^ k + r
bit_or-shifted zero q zero fits = rw (mul-one, bit_or-zero) (omega arith)
bit_or-shifted zero q (suc r) fits = absurd (omega arith)
bit_or-shifted (suc k) q r fits =
    let twice : q * 2 ^ suc k ≡ q * 2 ^ k * 2 =
      omega (arith, ap (λ (t : ℕ). q * t) (pow-suc 2 k)) in
    let upper : bit_or (q * 2 ^ suc k / 2) (r / 2) ≡ bit_or (q * 2 ^ k) (r / 2) =
      ap (λ t. bit_or t (r / 2)) (omega (arith, twice)) in
    omega (
      arith,
      twice,
      upper,
      bit_or_step (q * 2 ^ suc k) r,
      bit_or-shifted k q (r / 2) (omega (arith, pow-suc 2 k)),
    )

pub bit_above : (k w : ℕ) → w < 2 ^ k → bit w k ≡ 0
bit_above zero w h = omega arith
bit_above (suc k) w h = bit_above k (w / 2) (omega (arith, pow-suc 2 k))
