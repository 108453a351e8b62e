-- ===== src/Core/Raw/Check.antt =====
-- What `reg_set_raw` accepts, against a description of the values by type.
use regtable.Prelude.{
  ℕ, ◌-◌, ◌^◌, ◌≤◌, ◌<◌, ◌≡◌, ◌≢◌, ◌⊎◌, ◌↔◌, inl, inr, refl, arith, ap, sym, ◌∙◌,
}
use regtable.Prelude.{Bool, true, false, ◌||◌, Option, ◌==◌}
use regtable.Prelude.{if◌then◌else◌}
use regtable.Prelude.Int.{ℤ, ltb_ℤ, ◌≤ℤ◌}
use regtable.Core.Types.{
  RegType, reg_u8, reg_u16, reg_u32, reg_i8, reg_i16, reg_i32, reg_float, reg_bool, RegPerm, reg_ro,
  reg_rw, RegResult, reg_ok, reg_err_readonly, reg_err_type, reg_err_range, reg_err_rejected,
  Device, RegEntry, EntryRef, RegTable,
}
use regtable.Core.Float.{exponent, isnan, isinf, rank, float_lt}
use regtable.Core.Raw.{
  to_int32, pass, refuse, check_domain, beyond_limits, out_of_range, ask, commit, reg_set_raw,
}

-- The 32-bit patterns that are values of a type. A float is finite: its exponent is not all ones.
abbrev pub Admissible : RegType → ℕ → Type 0
Admissible reg_u8 raw = raw < 2 ^ 8
Admissible reg_u16 raw = raw < 2 ^ 16
Admissible reg_u32 raw = Unit
Admissible reg_i8 raw = (raw < 2 ^ 7) ⊎ (2 ^ 32 - 2 ^ 7 ≤ raw)
Admissible reg_i16 raw = (raw < 2 ^ 15) ⊎ (2 ^ 32 - 2 ^ 15 ≤ raw)
Admissible reg_i32 raw = Unit
Admissible reg_float raw = exponent raw ≢ 255
Admissible reg_bool raw = Unit

-- What is stored: any value but 0 is the 1 of a BOOL.
abbrev pub stored : RegType → ℕ → ℕ
stored reg_bool raw = if raw == 0 then 0 else 1
stored _ raw = raw

abbrev pub domain_error : RegType → RegResult
domain_error reg_float = reg_err_type
domain_error _ = reg_err_range

-- A verdict on a value, and the reason for it.
abbrev Decided : RegType → ℕ → Type 0
Decided ty raw =
    (Admissible ty raw × (check_domain ty raw ≡ pass (stored ty raw)))
    ⊎ ((¬ Admissible ty raw) × (check_domain ty raw ≡ refuse (domain_error ty)))

check_domain-Decided : (ty : RegType) (raw : ℕ) → raw < 2 ^ 32 → Decided ty raw
unfolding check_domain isnan isinf
check_domain-Decided reg_u8 raw h = ground arith
check_domain-Decided reg_u16 raw h = ground arith
check_domain-Decided reg_u32 raw h = inl (tt, refl)
check_domain-Decided reg_i8 raw h = ground arith
check_domain-Decided reg_i16 raw h = ground arith
check_domain-Decided reg_i32 raw h = inl (tt, refl)
check_domain-Decided reg_float raw h = ground arith
check_domain-Decided reg_bool raw h = inl (tt, refl)

-- Between the limits, in the order of the type; a float limit that is no number does not bind.
abbrev pub Between : RegType → ℕ → ℕ → ℕ → Type 0
Between reg_u8 min max raw = (min ≤ raw) × (raw ≤ max)
Between reg_u16 min max raw = (min ≤ raw) × (raw ≤ max)
Between reg_u32 min max raw = (min ≤ raw) × (raw ≤ max)
Between reg_i8 min max raw = (to_int32 min ≤ℤ to_int32 raw) × (to_int32 raw ≤ℤ to_int32 max)
Between reg_i16 min max raw = (to_int32 min ≤ℤ to_int32 raw) × (to_int32 raw ≤ℤ to_int32 max)
Between reg_i32 min max raw = (to_int32 min ≤ℤ to_int32 raw) × (to_int32 raw ≤ℤ to_int32 max)
Between reg_float min max raw =
    ((isnan min ≡ true) ⊎ (rank min ≤ℤ rank raw)) × ((isnan max ≡ true) ⊎ (rank raw ≤ℤ rank max))
Between reg_bool min max raw = Unit

-- Two limits of zero are none.
abbrev pub InLimits : RegEntry → ℕ → Type 0
InLimits e raw = ((e.min ≡ 0) × (e.max ≡ 0)) ⊎ Between e.type e.min e.max raw

abbrev Measured : RegType → ℕ → ℕ → ℕ → Type 0
Measured ty min max raw =
    (Between ty min max raw × (beyond_limits ty min max raw ≡ false))
    ⊎ ((¬ Between ty min max raw) × (beyond_limits ty min max raw ≡ true))

between-cases :
    (lo hi x : ℤ)
    → (((lo ≤ℤ x) × (x ≤ℤ hi)) × ((ltb_ℤ x lo || ltb_ℤ hi x) ≡ false))
      ⊎ ((¬ ((lo ≤ℤ x) × (x ≤ℤ hi))) × ((ltb_ℤ x lo || ltb_ℤ hi x) ≡ true))
between-cases lo hi x = ground arith

-- `<` and `≤` of floats are opposite, except at what is no number.
float_lt-cases :
    (a b : ℕ)
    → isnan a ≡ false
    → (((isnan b ≡ true) ⊎ (rank b ≤ℤ rank a)) × (float_lt a b ≡ false))
      ⊎ ((¬ ((isnan b ≡ true) ⊎ (rank b ≤ℤ rank a))) × (float_lt a b ≡ true))
unfolding float_lt
float_lt-cases a b h = ground arith

float_gt-cases :
    (a b : ℕ)
    → isnan a ≡ false
    → (((isnan b ≡ true) ⊎ (rank a ≤ℤ rank b)) × (float_lt b a ≡ false))
      ⊎ ((¬ ((isnan b ≡ true) ⊎ (rank a ≤ℤ rank b))) × (float_lt b a ≡ true))
unfolding float_lt
float_gt-cases a b h = ground arith

finite-isnan : (w : ℕ) → exponent w ≢ 255 → isnan w ≡ false
unfolding isnan
finite-isnan w h = ground arith

beyond_limits-Measured :
    (ty : RegType) (min max raw : ℕ) → Admissible ty raw → Measured ty min max (stored ty raw)
unfolding beyond_limits
beyond_limits-Measured reg_u8 min max raw h = ground arith
beyond_limits-Measured reg_u16 min max raw h = ground arith
beyond_limits-Measured reg_u32 min max raw h = ground arith
beyond_limits-Measured reg_i8 min max raw h =
    between-cases (to_int32 min) (to_int32 max) (to_int32 raw)
beyond_limits-Measured reg_i16 min max raw h =
    between-cases (to_int32 min) (to_int32 max) (to_int32 raw)
beyond_limits-Measured reg_i32 min max raw h =
    between-cases (to_int32 min) (to_int32 max) (to_int32 raw)
beyond_limits-Measured reg_float min max raw h = ground (
  arith,
  float_lt-cases raw min (finite-isnan raw h),
  float_gt-cases raw max (finite-isnan raw h),
)
beyond_limits-Measured reg_bool min max raw h = inl (tt, refl)

out_of_range-cases :
    (e : RegEntry) (raw : ℕ)
    → Admissible e.type raw
    → (InLimits e (stored e.type raw) × (out_of_range e (stored e.type raw) ≡ false))
      ⊎ ((¬ InLimits e (stored e.type raw)) × (out_of_range e (stored e.type raw) ≡ true))
unfolding out_of_range
out_of_range-cases e raw h = ground (arith, beyond_limits-Measured e.type e.min e.max raw h)

RegPerm-cases : (p : RegPerm) → (p ≡ reg_ro) ⊎ (p ≡ reg_rw)
RegPerm-cases reg_ro = inl refl
RegPerm-cases reg_rw = inr refl

domain_error-ne-ok : (ty : RegType) → domain_error ty ≢ reg_ok
domain_error-ne-ok reg_u8 h = cc
domain_error-ne-ok reg_float h = cc
domain_error-ne-ok _ h = cc

module _ (t : Option RegTable) (r : EntryRef) (raw : ℕ) (d : Device) where
  open r use {entry}

  abbrev asked : Bool × Device
  asked = ask entry.on_write (stored entry.type raw) d

  -- The four ways through `reg_set_raw`.
  pub reg_set_raw-read_only : entry.perm ≡ reg_ro → reg_set_raw t r raw d ≡ (reg_err_readonly, d)
  unfolding reg_set_raw
  reg_set_raw-read_only ro = rw ro

  pub reg_set_raw-inadmissible :
      entry.perm ≡ reg_rw
      → raw < 2 ^ 32
      → ¬ Admissible entry.type raw
      → reg_set_raw t r raw d ≡ (domain_error entry.type, d)
  unfolding reg_set_raw
  reg_set_raw-inadmissible writable h bad = elim (check_domain-Decided entry.type raw h) [
    | inl (good, _) ↦ absurd (bad good)
    | inr (_, e) ↦ rw (writable, e)
  ]

  pub reg_set_raw-beyond :
      entry.perm ≡ reg_rw
      → raw < 2 ^ 32
      → Admissible entry.type raw
      → ¬ InLimits entry (stored entry.type raw)
      → reg_set_raw t r raw d ≡ (reg_err_range, d)
  unfolding reg_set_raw
  reg_set_raw-beyond writable h good far = elim (check_domain-Decided entry.type raw h) [
    | inl (_, e) ↦ elim (out_of_range-cases entry raw good) [
      | inl (near, _) ↦ absurd (far near)
      | inr (_, beyond) ↦ rw (writable, e, beyond)
    ]
    | inr (bad, _) ↦ absurd (bad good)
  ]

  pub reg_set_raw-asked :
      entry.perm ≡ reg_rw
      → raw < 2 ^ 32
      → Admissible entry.type raw
      → InLimits entry (stored entry.type raw)
      → reg_set_raw t r raw d ≡ (
          if asked.0
          then (reg_ok, commit t r (stored entry.type raw) asked.1)
          else (reg_err_rejected, asked.1))
  unfolding reg_set_raw
  reg_set_raw-asked writable h good near = elim (check_domain-Decided entry.type raw h) [
    | inl (_, e) ↦ elim (out_of_range-cases entry raw good) [
      | inl (_, within) ↦ rw (writable, e, within)
      | inr (far, _) ↦ absurd (far near)
    ]
    | inr (bad, _) ↦ absurd (bad good)
  ]

  -- A write stops before the command check, or is settled by it.
  pub reg_set_raw-ways :
      raw < 2 ^ 32
      → ((reg_set_raw t r raw d).1 ≡ d)
        ⊎ (reg_set_raw t r raw d ≡ (
            if asked.0
            then (reg_ok, commit t r (stored entry.type raw) asked.1)
            else (reg_err_rejected, asked.1)))
  reg_set_raw-ways h = elim (RegPerm-cases entry.perm) [
    | inl ro ↦ inl (ap (λ o. o.1) (reg_set_raw-read_only ro))
    | inr writable ↦ elim (check_domain-Decided entry.type raw h) [
      | inl (good, _) ↦ elim (out_of_range-cases entry raw good) [
        | inl (near, _) ↦ inr (reg_set_raw-asked writable h good near)
        | inr (far, _) ↦ inl (ap (λ o. o.1) (reg_set_raw-beyond writable h good far))
      ]
      | inr (bad, _) ↦ inl (ap (λ o. o.1) (reg_set_raw-inadmissible writable h bad))
    ]
  ]

  -- What has to hold for a write to be carried out: the entry is writable, the value is one of
  -- its type and lies within its limits, and the command check allows it.
  abbrev pub Allowed : Type 0
  Allowed =
      (entry.perm ≡ reg_rw)
      × Admissible entry.type raw
      × InLimits entry (stored entry.type raw)
      × (asked.0 ≡ true)

  allowed_from_ok : raw < 2 ^ 32 → (reg_set_raw t r raw d).0 ≡ reg_ok → Allowed
  allowed_from_ok h ok = elim (RegPerm-cases entry.perm) [
    | inl ro ↦ cc (reg_set_raw-read_only ro)
    | inr writable ↦ elim (check_domain-Decided entry.type raw h) [
      | inl (good, _) ↦ elim (out_of_range-cases entry raw good) [
        | inl (near, _) ↦
            (writable, good, near, ground (arith, reg_set_raw-asked writable h good near))
        | inr (far, _) ↦ cc (reg_set_raw-beyond writable h good far)
      ]
      | inr (bad, _) ↦ absurd (
          domain_error-ne-ok entry.type
            (sym (ap (λ o. o.0) (reg_set_raw-inadmissible writable h bad)) ∙ ok))
    ]
  ]

  -- `reg_set_raw` returns REG_OK exactly when the entry is writable, the value is one of its type
  -- and lies within its limits, and `on_write`, where there is one, returns true for it.
  pub reg_set_raw-ok_iff : raw < 2 ^ 32 → ((reg_set_raw t r raw d).0 ≡ reg_ok) ↔ Allowed
  reg_set_raw-ok_iff h = (allowed_from_ok h, λ a. ground (arith, reg_set_raw-asked a.0 h a.1 a.2))
