-- ===== src/Core/Names.antt =====
-- The names that src/regtable_core.c gives to types and results: `reg_type_str`, `reg_result_str`.
use regtable.Prelude.{codes}
use regtable.Core.Types.{
  RegType, reg_u8, reg_u16, reg_u32, reg_i8, reg_i16, reg_i32, reg_float, reg_bool, RegPerm, reg_ro,
  reg_rw, RegResult, reg_ok, reg_err_not_found, reg_err_readonly, reg_err_type, reg_err_range,
  reg_err_rejected, reg_err_table, Text,
}

unfoldable pub reg_type_str : RegType → Text
unfolding codes
reg_type_str reg_u8 = codes "U8"
reg_type_str reg_u16 = codes "U16"
reg_type_str reg_u32 = codes "U32"
reg_type_str reg_i8 = codes "I8"
reg_type_str reg_i16 = codes "I16"
reg_type_str reg_i32 = codes "I32"
reg_type_str reg_float = codes "FLOAT"
reg_type_str reg_bool = codes "BOOL"

unfoldable pub reg_result_str : RegResult → Text
unfolding codes
reg_result_str reg_ok = codes "OK"
reg_result_str reg_err_not_found = codes "ERR: not found"
reg_result_str reg_err_readonly = codes "ERR: read-only"
reg_result_str reg_err_type = codes "ERR: invalid value"
reg_result_str reg_err_range = codes "ERR: out of range"
reg_result_str reg_err_rejected = codes "ERR: rejected"
reg_result_str reg_err_table = codes "ERR: bad table"

-- "RO" or "RW", as both adapters print it.
unfoldable pub perm_str : RegPerm → Text
unfolding codes
perm_str reg_ro = codes "RO"
perm_str reg_rw = codes "RW"
