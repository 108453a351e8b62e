-- ===== src/Mqtt/Handle/Access.antt =====
-- The accesses of `regmqtt_handle` of src/regtable_mqtt.c.
use regtable.Prelude.{Option, none, some, ◌>>=◌}
use regtable.Core.Types.{Text, Device, EntryRef, RegTable}
use regtable.Core.Table.{reg_find}
use regtable.Core.Access.{
  IsEntry, Accesses, start, Each, Each-bind, Any, Each-Any, reg_find-IsEntry,
}
use regtable.Core.Text.{Libc}
use regtable.Core.Text.Access.{IsLibc, reg_set_str-Accesses}
use regtable.Mqtt.Handle.{command_name, set_found, regmqtt_handle}

module _ (c : Libc) (t : RegTable) (ok : IsLibc c) where
  found-Accesses :
      (payload : Text) (d : Device) (o : Option EntryRef)
      → Each (IsEntry t.entries t.base) o
      → Accesses t d (set_found c t payload d o).1
  found-Accesses payload d none at = start
  found-Accesses payload d (some r) at = reg_set_str-Accesses c t d r payload ok at

  pub regmqtt_handle-Accesses :
      (prefix topic payload : Text) (d : Device)
      → Accesses t d (regmqtt_handle c t prefix topic payload d).1
  unfolding regmqtt_handle
  regmqtt_handle-Accesses prefix topic payload d =
      found-Accesses payload d (command_name prefix topic >>= (λ name. reg_find t name)) (
        Each-bind Any (IsEntry t.entries t.base) (command_name prefix topic) _ (Each-Any _)
          (λ name _. reg_find-IsEntry t name))
