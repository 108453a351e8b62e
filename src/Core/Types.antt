-- ===== src/Core/Types.antt =====
-- The types of src/regtable_core.h: a register's type and permission, result codes, the entry,
-- the table handle, and the memory of the device on which they work.
use regtable.Prelude.{ℕ, Bool, Option, List}

-- `RegType`
pub data RegType : Type 0 where
  reg_u8 reg_u16 reg_u32 reg_i8 reg_i16 reg_i32 reg_float reg_bool : RegType

-- `RegPerm`
pub data RegPerm : Type 0 where
  reg_ro reg_rw : RegPerm

-- `RegResult`
pub data RegResult : Type 0 where
  reg_ok reg_err_not_found reg_err_readonly reg_err_type reg_err_range : RegResult
  reg_err_rejected reg_err_table : RegResult

-- C text is the list of its bytes, without the NUL that ends it.
abbrev pub Text : Type 0
Text = List ℕ

-- What the functions change: the memory, byte by byte, in which the variables of the application
-- lie, and the words of the dirty bitmap.
pub record Device : Type 0 where
  pub mem : ℕ → ℕ
  pub dirty : List ℕ

-- `RegEntry`. `ptr` is the address of the variable. A limit is the 32-bit pattern of the union.
-- A hook is a function of the device; its `entry` argument is the entry that it stands in, so it
-- is applied already. `none` is a NULL pointer.
pub record RegEntry : Type 0 where
  pub name : Text
  pub ptr : ℕ
  pub type : RegType
  pub perm : RegPerm
  pub modbus_addr : ℕ
  pub min : ℕ
  pub max : ℕ
  pub on_write : Option (ℕ → Device → Bool × Device)
  pub on_read : Option (Device → Device)
  pub on_change : Option (Device → Device)
  pub description : Option Text

-- `const RegEntry *`: where the entry lies, counted in entries, and the entry there.
pub record EntryRef : Type 0 where
  pub addr : ℕ
  pub entry : RegEntry

-- `RegTable`, bound to its entries: their address, the entries before the one with no name that
-- ends them, and their count. The bitmap is a part of the device. A NULL table, and a handle
-- whose `entries` are NULL, are the `none` of `Option RegTable`: the functions that allow them
-- treat them alike.
pub record RegTable : Type 0 where
  pub base : ℕ
  pub entries : List RegEntry
  pub count : ℕ

-- `RegIdentity`; `none` is a NULL field.
pub record RegIdentity : Type 0 where
  pub device : Option Text
  pub fw : Option Text
  pub hash : Option Text
  pub chip : Option Text
