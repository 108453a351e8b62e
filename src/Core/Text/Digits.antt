-- ===== src/Core/Text/Digits.antt =====
-- Decimal text: what `%lu` prints, and what the parsers read of it.
use regtable.Prelude.{ℕ, zero, suc, ◌+◌, ◌-◌, ◌*◌, ◌/◌, ◌%◌, ◌^◌, ◌≤◌, ◌<◌, ◌≡◌, refl, arith}
use regtable.Prelude.{◌∙◌, Bool-cases, inl, inr, true}
use regtable.Prelude.{[], ◌∷◌, ◌++◌, ltb, if◌then◌else◌, length, length-append}
use regtable.Core.Types.{reg_err_range, Text}
use regtable.Core.Raw.{pass, refuse}
use regtable.Core.Text.{
  Libc, decimal, digit_value, isxdigit, int_base, skip_space, scan, own_prefix, strtoul, magnitude,
}
use native.Mathlib.Nat.{pow-suc}

abbrev pub IsDigit : ℕ → Type 0
IsDigit c = (b'0' ≤ c) × (c ≤ b'9')

abbrev pub AllDigits : Text → Type 0
AllDigits [] = Unit
AllDigits (c ∷ s) = IsDigit c × AllDigits s

-- The number that decimal digits stand for, behind the digits of `v`.
abbrev pub number : ℕ → Text → ℕ
number v [] = v
number v (c ∷ s) = number (v * 10 + (c - b'0')) s

AllDigits-append : (s s' : Text) → AllDigits s → AllDigits s' → AllDigits (s ++ s')
AllDigits-append [] s' h h' = h'
AllDigits-append (c ∷ s) s' h h' = (h.0, AllDigits-append s s' h.1 h')

number-append : (v : ℕ) (s : Text) (c : ℕ) → number v (s ++ (c ∷ [])) ≡ number v s * 10 + (c - b'0')
number-append v [] c = refl
number-append v (a ∷ s) c = number-append (v * 10 + (a - b'0')) s c

pub decimal-AllDigits : (fuel n : ℕ) → AllDigits (decimal fuel n)
unfolding decimal
decimal-AllDigits zero n = tt
decimal-AllDigits (suc fuel) n = elim (Bool-cases (ltb n 10)) [
  | inl one ↦ rw one ((omega arith, ground arith), tt)
  | inr more ↦ rw more (
      AllDigits-append (decimal fuel (n / 10)) _ (decimal-AllDigits fuel (n / 10))
        ((omega arith, omega arith), tt))
]

pub number-decimal : (fuel n : ℕ) → 1 ≤ fuel → n < 10 ^ fuel → number 0 (decimal fuel n) ≡ n
unfolding decimal
number-decimal zero n some_fuel h = absurd (omega arith)
number-decimal (suc zero) n some_fuel h = ground arith
number-decimal (suc (suc fuel)) n some_fuel h = elim (Bool-cases (ltb n 10)) [
  | inl one ↦ rw one (omega arith)
  | inr more ↦
      let upper =
        number-decimal (suc fuel) (n / 10) (omega arith) (omega (arith, pow-suc 10 (suc fuel))) in
      rw more (number-append 0 (decimal (suc fuel) (n / 10)) (b'0' + n % 10) ∙ omega (arith, upper))
]

pub length-decimal : (fuel n : ℕ) → length (decimal fuel n) ≤ fuel
unfolding decimal
length-decimal zero n = omega arith
length-decimal (suc fuel) n = elim (Bool-cases (ltb n 10)) [
  | inl one ↦ rw one (omega arith)
  | inr more ↦ rw more (
      omega (
        arith,
        length-decimal fuel (n / 10),
        length-append (decimal fuel (n / 10)) ((b'0' + n % 10) ∷ []),
      ))
]

pub length-decimal_pos : (fuel n : ℕ) → 1 ≤ fuel → 1 ≤ length (decimal fuel n)
unfolding decimal
length-decimal_pos zero n h = absurd (omega arith)
length-decimal_pos (suc fuel) n h = elim (Bool-cases (ltb n 10)) [
  | inl one ↦ rw one (omega arith)
  | inr more ↦ rw more (omega (arith, length-append (decimal fuel (n / 10)) ((b'0' + n % 10) ∷ [])))
]

digit_value_lem : (c : ℕ) → IsDigit c → digit_value c ≡ c - b'0'
digit_value_lem c h = ground arith

scan_digits : (s : Text) (v : ℕ) → AllDigits s → scan 10 s v ≡ (number v s, [])
unfolding scan
scan_digits [] v h = refl
scan_digits (c ∷ s) v h =
    let is = digit_value_lem c h.0 in
    let small : ltb (c - b'0') 10 ≡ true = ground arith in
    rw (is, small) (scan_digits s (v * 10 + (c - b'0')) h.1)

int_base_digits : (s : Text) → AllDigits s → int_base s ≡ (10, s)
unfolding int_base
int_base_digits [] h = refl
int_base_digits (a ∷ []) h = refl
int_base_digits (a ∷ b ∷ s) h = ground arith

own_prefix_ten : (s : Text) → own_prefix 10 s ≡ s
unfolding own_prefix
own_prefix_ten [] = refl
own_prefix_ten (a ∷ []) = refl
own_prefix_ten (a ∷ b ∷ []) = refl
own_prefix_ten (a ∷ b ∷ c ∷ s) = refl

-- Decimal digits are read as the number they stand for, if an `unsigned long` holds it.
pub magnitude_digits :
    (c : Libc) (s : Text)
    → AllDigits s
    → 1 ≤ length s
    → magnitude c s
      ≡ (if ltb c.ulong_max (number 0 s) then refuse reg_err_range else pass (number 0 s))
unfolding magnitude strtoul
magnitude_digits c [] h long = absurd (omega arith)
magnitude_digits c (a ∷ s) h long =
    let digit : isxdigit a ≡ true = rw (digit_value_lem a h.0) (ground arith) in
    elim (Bool-cases (ltb c.ulong_max (number 0 (a ∷ s)))) [
      | inl big ↦
          rw
            (int_base_digits (a ∷ s) h, own_prefix_ten (a ∷ s), scan_digits (a ∷ s) 0 h, digit, big)
      | inr small ↦
          rw (
            int_base_digits (a ∷ s) h,
            own_prefix_ten (a ∷ s),
            scan_digits (a ∷ s) 0 h,
            digit,
            small,
          )
    ]

pub skip_space_digits : (s : Text) → AllDigits s → skip_space s ≡ s
unfolding skip_space
skip_space_digits [] h = refl
skip_space_digits (c ∷ s) h = ground arith
