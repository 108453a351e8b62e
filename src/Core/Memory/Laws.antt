-- ===== src/Core/Memory/Laws.antt =====
-- What a variable holds after a store, and what the store leaves alone.
use regtable.Prelude.{ℕ, zero, suc, ◌+◌, ◌*◌, ◌/◌, ◌%◌, ◌^◌, ◌≤◌, ◌<◌, ◌≡◌, ◌⊎◌, inl, inr}
use regtable.Prelude.{refl, arith, ap, ◌∙◌, ◌==◌, if◌then◌else◌}
use native.Mathlib.Nat.{
  pow-suc, one-le-pow, div-add-mod, mod-lt, mod-eq_of_lt, add-mul-mod_self_left,
}
use regtable.Core.Types.{
  RegType, reg_u8, reg_u16, reg_u32, reg_i8, reg_i16, reg_i32, reg_float, reg_bool, RegEntry,
}
use regtable.Core.Memory.{
  load_bytes, update, store_bytes, size_of, sign_extend, load_typed, load_raw, store_raw, InDomain,
}

pub load_bytes-lt : (n : ℕ) (m : ℕ → ℕ) (p : ℕ) → load_bytes n m p < 256 ^ n
unfolding load_bytes
load_bytes-lt zero m p = omega arith
load_bytes-lt (suc n) m p = omega (arith, pow-suc 256 n, load_bytes-lt n m (p + 1))

-- A store changes no byte outside the variable.
pub store_bytes_outside :
    (n : ℕ) (m : ℕ → ℕ) (p w a : ℕ) → (a < p) ⊎ (p + n ≤ a) → store_bytes n m p w a ≡ m a
unfolding store_bytes
store_bytes_outside zero m p w a h = refl
store_bytes_outside (suc n) m p w a h =
    store_bytes_outside n (update m p (w % 256)) (p + 1) (w / 256) a (omega arith) ∙ ground arith

-- A load reads only the bytes of the variable.
pub load_bytes_congr :
    (n : ℕ) (m m' : ℕ → ℕ) (p : ℕ)
    → ((a : ℕ) → p ≤ a → a < p + n → m a ≡ m' a)
    → load_bytes n m p ≡ load_bytes n m' p
unfolding load_bytes
load_bytes_congr zero m m' p same = refl
load_bytes_congr (suc n) m m' p same =
    let rest : load_bytes n m (p + 1) ≡ load_bytes n m' (p + 1) =
      load_bytes_congr n m m' (p + 1) (λ a lo hi. same a (omega arith) (omega arith)) in
    omega (arith, rest, ap (λ (b : ℕ). b % 256) (same p (omega arith) (omega arith)))

-- The remainder by `p * 256`, the lowest byte first.
mod_by_digits : (w p : ℕ) → 1 ≤ p → w % (p * 256) ≡ w % 256 + 256 * (w / 256 % p)
mod_by_digits w p h =
    let r = w / 256 % p in
    let q = w / 256 / p in
    let split : w ≡ 256 * r + w % 256 + p * 256 * q = omega (arith, div-add-mod (w / 256) p) in
    let small : 256 * r + w % 256 < p * 256 = omega (arith, mod-lt (w / 256) h) in
    ap (λ (t : ℕ). t % (p * 256)) split
    ∙ add-mul-mod_self_left (256 * r + w % 256) (p * 256) q
    ∙ mod-eq_of_lt small
    ∙ omega arith

pub load_bytes-store_bytes :
    (n : ℕ) (m : ℕ → ℕ) (p w : ℕ) → load_bytes n (store_bytes n m p w) p ≡ w % 256 ^ n
unfolding load_bytes store_bytes
load_bytes-store_bytes zero m p w = omega arith
load_bytes-store_bytes (suc n) m p w =
    let low : store_bytes n (update m p (w % 256)) (p + 1) (w / 256) p ≡ w % 256 =
      store_bytes_outside n (update m p (w % 256)) (p + 1) (w / 256) p (omega arith)
      ∙ ground arith in
    rw (low, load_bytes-store_bytes n (update m p (w % 256)) (p + 1) (w / 256), pow-suc)
      (omega (arith, mod_by_digits w (256 ^ n) (one-le-pow n 256 (omega arith))))

load_typed-store_bytes :
    (ty : RegType) (m : ℕ → ℕ) (p raw : ℕ)
    → InDomain ty raw
    → load_typed ty p (store_bytes (size_of ty) m p raw) ≡ raw
unfolding load_typed sign_extend
load_typed-store_bytes reg_u8 m p raw h = ground (arith, load_bytes-store_bytes 1 m p raw)
load_typed-store_bytes reg_u16 m p raw h = ground (arith, load_bytes-store_bytes 2 m p raw)
load_typed-store_bytes reg_u32 m p raw h = ground (arith, load_bytes-store_bytes 4 m p raw)
load_typed-store_bytes reg_i8 m p raw h = ground (arith, load_bytes-store_bytes 1 m p raw)
load_typed-store_bytes reg_i16 m p raw h = ground (arith, load_bytes-store_bytes 2 m p raw)
load_typed-store_bytes reg_i32 m p raw h = ground (arith, load_bytes-store_bytes 4 m p raw)
load_typed-store_bytes reg_float m p raw h = ground (arith, load_bytes-store_bytes 4 m p raw)
load_typed-store_bytes reg_bool m p raw h = ground (arith, load_bytes-store_bytes 1 m p raw)

-- A value stored by the raw convention is the value loaded next.
pub load_raw-store_raw :
    (e : RegEntry) (m : ℕ → ℕ) (raw : ℕ)
    → InDomain e.type raw
    → load_raw e (store_raw e raw m) ≡ raw
unfolding load_raw store_raw
load_raw-store_raw e m raw h = load_typed-store_bytes e.type m e.ptr raw h

load_typed-InDomain : (ty : RegType) (m : ℕ → ℕ) (p : ℕ) → InDomain ty (load_typed ty p m)
unfolding load_typed sign_extend
load_typed-InDomain reg_u8 m p = load_bytes-lt 1 m p
load_typed-InDomain reg_u16 m p = load_bytes-lt 2 m p
load_typed-InDomain reg_u32 m p = load_bytes-lt 4 m p
load_typed-InDomain reg_i8 m p = ground (arith, load_bytes-lt 1 m p)
load_typed-InDomain reg_i16 m p = ground (arith, load_bytes-lt 2 m p)
load_typed-InDomain reg_i32 m p = load_bytes-lt 4 m p
load_typed-InDomain reg_float m p = load_bytes-lt 4 m p
load_typed-InDomain reg_bool m p = ground arith

-- Every value that is read meets the raw convention of its type.
pub load_raw-InDomain : (e : RegEntry) (m : ℕ → ℕ) → InDomain e.type (load_raw e m)
unfolding load_raw
load_raw-InDomain e m = load_typed-InDomain e.type m e.ptr

pub store_raw_outside :
    (e : RegEntry) (raw : ℕ) (m : ℕ → ℕ) (a : ℕ)
    → (a < e.ptr) ⊎ (e.ptr + size_of e.type ≤ a)
    → store_raw e raw m a ≡ m a
unfolding store_raw
store_raw_outside e raw m a h = store_bytes_outside (size_of e.type) m e.ptr raw a h

load_typed_congr :
    (ty : RegType) (m m' : ℕ → ℕ) (p : ℕ)
    → ((a : ℕ) → p ≤ a → a < p + size_of ty → m a ≡ m' a)
    → load_typed ty p m ≡ load_typed ty p m'
unfolding load_typed
load_typed_congr reg_u8 m m' p same = load_bytes_congr 1 m m' p same
load_typed_congr reg_u16 m m' p same = load_bytes_congr 2 m m' p same
load_typed_congr reg_u32 m m' p same = load_bytes_congr 4 m m' p same
load_typed_congr reg_i8 m m' p same = ap (sign_extend 8) (load_bytes_congr 1 m m' p same)
load_typed_congr reg_i16 m m' p same = ap (sign_extend 16) (load_bytes_congr 2 m m' p same)
load_typed_congr reg_i32 m m' p same = load_bytes_congr 4 m m' p same
load_typed_congr reg_float m m' p same = load_bytes_congr 4 m m' p same
load_typed_congr reg_bool m m' p same =
    ap (λ (b : ℕ). if b == 0 then 0 else 1) (load_bytes_congr 1 m m' p same)

pub load_raw_congr :
    (e : RegEntry) (m m' : ℕ → ℕ)
    → ((a : ℕ) → e.ptr ≤ a → a < e.ptr + size_of e.type → m a ≡ m' a)
    → load_raw e m ≡ load_raw e m'
unfolding load_raw
load_raw_congr e m m' same = load_typed_congr e.type m m' e.ptr same

-- Two variables share no byte.
abbrev pub IsDisjoint : RegEntry → RegEntry → Type 0
IsDisjoint a b = (a.ptr + size_of a.type ≤ b.ptr) ⊎ (b.ptr + size_of b.type ≤ a.ptr)

pub IsDisjoint-sym : (a b : RegEntry) → IsDisjoint a b → IsDisjoint b a
IsDisjoint-sym a b (inl h) = inr h
IsDisjoint-sym a b (inr h) = inl h

-- A store to one of them leaves the value of the other.
pub load_raw-store_raw_ne :
    (a b : RegEntry) (m : ℕ → ℕ) (raw : ℕ)
    → IsDisjoint a b
    → load_raw a (store_raw b raw m) ≡ load_raw a m
load_raw-store_raw_ne a b m raw apart =
    load_raw_congr a (store_raw b raw m) m (λ x lo hi. store_raw_outside b raw m x (omega arith))
