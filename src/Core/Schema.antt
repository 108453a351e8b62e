-- ===== src/Core/Schema.antt =====
-- `reg_table_schema` of src/regtable_core.c: the FNV-1a fingerprint of a table.
pub mod Laws
use regtable.Prelude.{ℕ, zero, suc, ◌+◌, ◌*◌, ◌/◌, ◌%◌, ◌^◌, Option, none, some, List, [], ◌∷◌}
use regtable.Prelude.{bit_xor}
use regtable.Core.Types.{
  RegType, reg_u8, reg_u16, reg_u32, reg_i8, reg_i16, reg_i32, reg_float, reg_bool, RegPerm, reg_ro,
  reg_rw, Text, RegEntry, RegTable,
}

-- The numbers of the enum constants.
abbrev pub type_code : RegType → ℕ
type_code reg_u8 = 0
type_code reg_u16 = 1
type_code reg_u32 = 2
type_code reg_i8 = 3
type_code reg_i16 = 4
type_code reg_i32 = 5
type_code reg_float = 6
type_code reg_bool = 7

abbrev pub perm_code : RegPerm → ℕ
perm_code reg_ro = 0
perm_code reg_rw = 1

-- `h ^= b; h *= 16777619u;`
pub mix : ℕ → ℕ → ℕ
mix h b = bit_xor h b * 16777619 % 2 ^ 32

-- The loop over a text: its bytes, and the NUL behind them.
pub mix_text : ℕ → Text → ℕ
unfolding mix
mix_text h [] = mix h 0
mix_text h (c ∷ s) = mix_text (mix h (c % 256)) s

pub mix_bytes : ℕ → List ℕ → ℕ
unfolding mix
mix_bytes h [] = h
mix_bytes h (b ∷ bs) = mix_bytes (mix h b) bs

-- The array `bytes`.
abbrev pub field_bytes : RegEntry → List ℕ
field_bytes e =
    type_code e.type
    ∷ perm_code e.perm
    ∷ e.min % 256
    ∷ e.min / 2 ^ 8 % 256
    ∷ e.min / 2 ^ 16 % 256
    ∷ e.min / 2 ^ 24 % 256
    ∷ e.max % 256
    ∷ e.max / 2 ^ 8 % 256
    ∷ e.max / 2 ^ 16 % 256
    ∷ e.max / 2 ^ 24 % 256
    ∷ e.modbus_addr % 256
    ∷ e.modbus_addr / 2 ^ 8 % 256
    ∷ []

-- A NULL description is hashed as the empty text.
abbrev pub text_or_empty : Option Text → Text
text_or_empty none = []
text_or_empty (some s) = s

pub mix_entries : ℕ → List RegEntry → ℕ
unfolding mix_text mix_bytes
mix_entries h [] = h
mix_entries h (e ∷ es) =
    mix_entries
      (mix_text (mix_bytes (mix_text h e.name) (field_bytes e)) (text_or_empty e.description)) es

unfoldable pub reg_table_schema : Option RegTable → ℕ
unfolding mix_entries
reg_table_schema none = 2166136261
reg_table_schema (some t) = mix_entries 2166136261 t.entries
