-- ===== src/Prelude/Bits/Step.antt =====
-- The native bit operations are defined digit by digit, on fuel. Here is the equation for the
-- lowest digit of each, free of the fuel.
use Prim.Native.Nat.{min, max, differ, digits, bit_and-bitwise, bit_or-bitwise, bit_xor-bitwise}
use regtable.Prelude.{ℕ, zero, suc, ◌+◌, ◌-◌, ◌*◌, ◌/◌, ◌%◌, ◌≤◌, ◌<◌, ◌≡◌, ◌∙◌, refl, ap, arith}
use regtable.Prelude.{bit_and, bit_or, bit_xor}

grown : (k fuel : ℕ) → suc k + suc fuel ≡ suc (suc k + fuel)
grown k fuel = omega arith

-- Fuel beyond the first operand is of no use.
module _ (end : ℕ → ℕ) (on : ℕ → ℕ → ℕ) where
  no_digits : (fuel y : ℕ) → digits end on fuel 0 y ≡ end y
  no_digits zero y = refl
  no_digits (suc fuel) y = refl

  spare_fuel :
      (extra fuel x y : ℕ) → x ≤ fuel → digits end on (extra + fuel) x y ≡ digits end on fuel x y
  spare_fuel zero fuel x y h = ap (λ n. digits end on n x y) (omega arith)
  spare_fuel (suc k) zero zero y h = no_digits (suc k + 0) y
  spare_fuel (suc k) zero (suc x) y h = absurd (omega arith)
  spare_fuel (suc k) (suc fuel) zero y h = no_digits (suc k + suc fuel) y
  spare_fuel (suc k) (suc fuel) (suc x) y h =
      ap (λ n. digits end on n (suc x) y) (grown k fuel)
      ∙ ap (λ (u : ℕ). u * 2 + on (suc x % 2) (y % 2))
          (spare_fuel (suc k) fuel (suc x / 2) (y / 2) (omega arith))

  lowest_digit :
      (x y : ℕ)
      → digits end on (suc x) (suc x) y
        ≡ digits end on (suc x / 2) (suc x / 2) (y / 2) * 2 + on (suc x % 2) (y % 2)
  lowest_digit x y =
      let half = suc x / 2 in
      let enough : digits end on x half (y / 2) ≡ digits end on half half (y / 2) =
        ap (λ n. digits end on n half (y / 2)) (omega arith)
        ∙ spare_fuel (x - half) half half (y / 2) (omega arith) in
      ap (λ (u : ℕ). u * 2 + on (suc x % 2) (y % 2)) enough

pub bit_and_step : (x y : ℕ) → bit_and x y ≡ bit_and (x / 2) (y / 2) * 2 + min (x % 2) (y % 2)
bit_and_step zero y = simp bit_and-bitwise (omega arith)
bit_and_step (suc x) y = simp bit_and-bitwise (lowest_digit (λ u. 0) min x y)

-- Two digits differ exactly when their sum is odd.
differ_parity : (x y : ℕ) → x < 2 → y < 2 → differ x y ≡ (x + y) % 2
differ_parity zero y hx hy = omega arith
differ_parity (suc x) zero hx hy = omega arith
differ_parity (suc zero) (suc y) hx hy = omega arith
differ_parity (suc (suc x)) (suc y) hx hy = absurd (omega arith)

pub bit_xor_step : (x y : ℕ) → bit_xor x y ≡ bit_xor (x / 2) (y / 2) * 2 + (x % 2 + y % 2) % 2
bit_xor_step zero y = simp bit_xor-bitwise (omega arith)
bit_xor_step (suc x) y = simp bit_xor-bitwise (
    omega (
      arith,
      lowest_digit (λ u. u) differ x y,
      differ_parity (suc x % 2) (y % 2) (omega arith) (omega arith),
    ))

pub bit_or_step : (x y : ℕ) → bit_or x y ≡ bit_or (x / 2) (y / 2) * 2 + max (x % 2) (y % 2)
bit_or_step zero y = simp bit_or-bitwise (omega arith)
bit_or_step (suc x) y = simp bit_or-bitwise (lowest_digit (λ u. u) max x y)
