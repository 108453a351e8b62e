-- ===== src/TcpServer/Valid.antt =====
-- The registers of the TCP slave of example_modbus_tcp.c, whatever its peers send.
use regtable.Prelude.{ℕ, ◌+◌, ◌%◌, ◌^◌, refl, some, List, replicate}
use std.Path.{subst}
use regtable.Prelude.{sym}
use regtable.Core.Types.{Device, RegTable}
use regtable.Core.Memory.{load_raw, store_raw}
use regtable.Core.Dirty.{dirty_words}
use regtable.Core.Access.Keeps.{HooksKeep}
use regtable.Core.Access.Hooks.{HooksKeep-AllEntries, quiet, printing, refreshed}
use regtable.Core.Access.Sound.{IsLaid, IsValid, IsValid-IsStable, own_store}
use regtable.Modbus.Map.{RegModbus}
use regtable.Modbus.Pdu.Replies.{Yields}
use regtable.TcpServer.{Socket}
use regtable.TcpServer.Demo.{
  Layout, counter_entry, counter_read, uptime_entry, uptime_read, registry, main, main_lem,
}
use regtable.TcpServer.Connections.{demo}
use regtable.TcpServer.Safety.{ReceivesBytes, serve_all-keeps}

module _ (l : Layout) (elapsed : Device → ℕ) where
  -- The table that `main` binds.
  abbrev pub slave_table : RegTable
  slave_table = record { base = l.registry; entries = registry l elapsed; count = 4 }

  module _ (laid : IsLaid slave_table.entries) where
    counter_read-IsValid :
        (d : Device) → IsValid slave_table d → IsValid slave_table (counter_read l d)
    unfolding registry store_raw
    counter_read-IsValid d now =
        own_store slave_table laid (record (counter_entry l) { on_read = some (counter_read l) })
          ((load_raw (counter_entry l) d.mem + 1) % 2 ^ 16) d (1, refl) refl now

    uptime_read-IsValid :
        (d : Device) → IsValid slave_table d → IsValid slave_table (uptime_read l elapsed d)
    unfolding registry store_raw
    uptime_read-IsValid d now =
        own_store slave_table laid
          (record (uptime_entry l) { on_read = some (uptime_read l elapsed) }) (elapsed d % 2 ^ 32)
          d (2, refl) refl now

    slave_table-HooksKeep : HooksKeep slave_table (IsValid slave_table)
    unfolding registry
    slave_table-HooksKeep =
        let I : Device → Type 0 = IsValid slave_table in
        HooksKeep-AllEntries I slave_table (
          printing I _ refl refl refl,
          (
            refreshed I _ (counter_read l) refl refl refl counter_read-IsValid,
            (
              refreshed I _ (uptime_read l elapsed) refl refl refl uptime_read-IsValid,
              (quiet I _ refl refl refl, tt),
            ),
          ),
        )

    -- Whatever the peers send, in whatever pieces, and whether or not what is sent to them arrives,
    -- the slave never faults, and every writable variable holds a value of its type within its
    -- limits at the end, if it did at the start, what is received is bytes, and the linker lays the
    -- variables apart.
    pub slave-IsValid {ℓ} :
        {S : Type ℓ} (sock : Socket S) (mb : RegModbus) (fuel : ℕ) (ss : List S) (d : Device)
        → ReceivesBytes sock
        → IsValid slave_table d
        → Yields
            (λ (r : List S × Device). IsValid slave_table r.1)
            (main sock l elapsed mb fuel ss d)
    unfolding registry
    slave-IsValid {S = S} sock mb fuel ss d received now =
        subst (Yields (λ (r : List S × Device). IsValid slave_table r.1))
          (sym (main_lem sock l elapsed mb fuel ss d))
          (serve_all-keeps sock received (demo l elapsed) (IsValid slave_table)
            slave_table-HooksKeep (IsValid-IsStable slave_table laid) refl fuel ss
            (record d { dirty = replicate dirty_words 0 }) now)
