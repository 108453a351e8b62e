-- ===== src/Core/Memory.antt =====
-- `load_raw` and `store_raw` of src/regtable_core.c. The memory is bytes, low byte first, as on
-- the targets; a cell stands for its value modulo 256.
pub mod Laws
use regtable.Prelude.{
  ℕ, zero, suc, ◌+◌, ◌-◌, ◌*◌, ◌/◌, ◌%◌, ◌^◌, ◌≤◌, ◌<◌, ◌⊎◌, ltb, ◌==◌, if◌then◌else◌,
}
use regtable.Core.Types.{
  RegType, reg_u8, reg_u16, reg_u32, reg_i8, reg_i16, reg_i32, reg_float, reg_bool, RegEntry,
}

-- `n` bytes at address `p`, low byte first.
pub load_bytes : ℕ → (ℕ → ℕ) → ℕ → ℕ
load_bytes zero m p = 0
load_bytes (suc n) m p = m p % 256 + 256 * load_bytes n m (p + 1)

abbrev pub update : (ℕ → ℕ) → ℕ → ℕ → ℕ → ℕ
update m p v a = if a == p then v else m a

pub store_bytes : ℕ → (ℕ → ℕ) → ℕ → ℕ → ℕ → ℕ
store_bytes zero m p w = m
store_bytes (suc n) m p w = store_bytes n (update m p (w % 256)) (p + 1) (w / 256)

-- The width in bytes of the variable behind an entry of each type.
abbrev pub size_of : RegType → ℕ
size_of reg_u8 = 1
size_of reg_u16 = 2
size_of reg_u32 = 4
size_of reg_i8 = 1
size_of reg_i16 = 2
size_of reg_i32 = 4
size_of reg_float = 4
size_of reg_bool = 1

-- `(uint32_t)(int32_t)` of a signed value of `bits` bits, given by its pattern.
pub sign_extend : ℕ → ℕ → ℕ
sign_extend bits w = if ltb w (2 ^ (bits - 1)) then w else w + (2 ^ 32 - 2 ^ bits)

-- The value of a variable of a type at an address, by the raw convention.
pub load_typed : RegType → ℕ → (ℕ → ℕ) → ℕ
unfolding load_bytes sign_extend
load_typed reg_u8 p m = load_bytes 1 m p
load_typed reg_u16 p m = load_bytes 2 m p
load_typed reg_u32 p m = load_bytes 4 m p
load_typed reg_i8 p m = sign_extend 8 (load_bytes 1 m p)
load_typed reg_i16 p m = sign_extend 16 (load_bytes 2 m p)
load_typed reg_i32 p m = load_bytes 4 m p
load_typed reg_bool p m = if load_bytes 1 m p == 0 then 0 else 1
load_typed reg_float p m = load_bytes 4 m p

unfoldable pub load_raw : RegEntry → (ℕ → ℕ) → ℕ
unfolding load_typed
load_raw e m = load_typed e.type e.ptr m

-- A store cuts the value off at the width of the variable.
unfoldable pub store_raw : RegEntry → ℕ → (ℕ → ℕ) → ℕ → ℕ
unfolding store_bytes
store_raw e raw m = store_bytes (size_of e.type) m e.ptr raw

-- The raw values of a type: what the convention of `RegEntry` allows.
abbrev pub InDomain : RegType → ℕ → Type 0
InDomain reg_u8 raw = raw < 2 ^ 8
InDomain reg_u16 raw = raw < 2 ^ 16
InDomain reg_u32 raw = raw < 2 ^ 32
InDomain reg_i8 raw = (raw < 2 ^ 7) ⊎ ((2 ^ 32 - 2 ^ 7 ≤ raw) × (raw < 2 ^ 32))
InDomain reg_i16 raw = (raw < 2 ^ 15) ⊎ ((2 ^ 32 - 2 ^ 15 ≤ raw) × (raw < 2 ^ 32))
InDomain reg_i32 raw = raw < 2 ^ 32
InDomain reg_float raw = raw < 2 ^ 32
InDomain reg_bool raw = raw < 2
