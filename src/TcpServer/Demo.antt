-- ===== src/TcpServer/Demo.antt =====
-- The registers and the set-up of example_modbus_tcp.c.
use regtable.Prelude.{ℕ, ◌+◌, ◌%◌, ◌^◌, ◌≡◌, refl, false, codes}
use regtable.Prelude.{Option, none, some, List, [], ◌∷◌, ◌>>=◌, replicate}
use regtable.Core.Types.{
  reg_u16, reg_u32, reg_float, reg_bool, reg_ro, reg_rw, RegResult, Device, RegEntry, RegTable,
}
use regtable.Core.Memory.{load_raw, store_raw}
use regtable.Core.Dirty.{dirty_words}
use regtable.Core.Table.{reg_table_init}
use regtable.Modbus.Map.{RegModbus, regmb_init}
use regtable.TcpServer.{Socket, serve}

-- Where the linker puts the variables and the table.
pub record Layout : Type 0 where
  pub led : ℕ
  pub counter : ℕ
  pub uptime : ℕ
  pub gain : ℕ
  pub registry : ℕ

abbrev pub led_entry : Layout → RegEntry
led_entry l = record {
  name = codes "led";
  ptr = l.led;
  type = reg_bool;
  perm = reg_rw;
  modbus_addr = 1;
  min = 0;
  max = 0;
  on_write = none;
  on_read = none;
  on_change = some (λ d. d);
  description = some (codes "Demo LED");
}

abbrev pub counter_entry : Layout → RegEntry
counter_entry l = record {
  name = codes "counter";
  ptr = l.counter;
  type = reg_u16;
  perm = reg_ro;
  modbus_addr = 2;
  min = 0;
  max = 0;
  on_write = none;
  on_read = none;
  on_change = none;
  description = some (codes "Increments per read");
}

-- `counter++`, on 16 bits
abbrev pub counter_read : Layout → Device → Device
counter_read l d =
    let e = counter_entry l in
    record d { mem = store_raw e ((load_raw e d.mem + 1) % 2 ^ 16) d.mem }

abbrev pub uptime_entry : Layout → RegEntry
uptime_entry l = record (counter_entry l) {
  name = codes "uptime";
  ptr = l.uptime;
  type = reg_u32;
  modbus_addr = 3;
  description = some (codes "Seconds since start");
}

-- `elapsed` is what the clock says since the start.
abbrev pub uptime_read : Layout → (Device → ℕ) → Device → Device
uptime_read l elapsed d = record d { mem = store_raw (uptime_entry l) (elapsed d % 2 ^ 32) d.mem }

-- The limits are 0.5 and 2.5.
abbrev pub gain_entry : Layout → RegEntry
gain_entry l = record (led_entry l) {
  name = codes "gain";
  ptr = l.gain;
  type = reg_float;
  modbus_addr = 5;
  min = 0x3f000000;
  max = 0x40200000;
  on_change = none;
  description = some (codes "Demo float");
}

unfoldable pub registry : Layout → (Device → ℕ) → List RegEntry
registry l elapsed =
    led_entry l
    ∷ record (counter_entry l) { on_read = some (counter_read l) }
    ∷ record (uptime_entry l) { on_read = some (uptime_read l elapsed) }
    ∷ gain_entry l
    ∷ []

module _ {ℓ} {S : Type ℓ} (sock : Socket S) where
  -- The outer loop of `main`, over the connections that are accepted.
  unfoldable pub serve_all : RegModbus → ℕ → List S → Device → Option (List S × Device)
  serve_all mb fuel [] d = some ([], d)
  serve_all mb fuel (s ∷ ss) d = do
    (s', d') ← serve sock mb fuel s d
    (ss', d'') ← serve_all mb fuel ss d'
    some (s' ∷ ss', d'')

  -- A handle that is not bound is a NULL table, on which the adapter would fault.
  pub serve_bound :
      RegModbus → ℕ → List S → RegResult × Option RegTable × Device → Option (List S × Device)
  serve_bound mb fuel ss (res, none, d) = none
  serve_bound mb fuel ss (res, some t, d) = serve_all (regmb_init mb t 1).1 fuel ss d

  -- `main`, once it listens; the results of the two set-up functions are not looked at.
  pub main : Layout → (Device → ℕ) → RegModbus → ℕ → List S → Device → Option (List S × Device)
  main l elapsed mb fuel ss d =
      serve_bound mb fuel ss (reg_table_init l.registry (registry l elapsed) d)

  -- The set-up succeeds, wherever the variables lie: the connections are served from the four
  -- registers, by the slave with address 1, from a cleared bitmap.
  pub main_lem :
      (l : Layout) (elapsed : Device → ℕ) (mb : RegModbus) (fuel : ℕ) (ss : List S) (d : Device)
      → main l elapsed mb fuel ss d
        ≡ serve_all
            (record {
              table = record { base = l.registry; entries = registry l elapsed; count = 4 };
              addr = 1;
              word_swap = false;
            })
            fuel
            ss
            (record d { dirty = replicate dirty_words 0 })
  unfolding main serve_bound reg_table_init regmb_init registry
  main_lem l elapsed mb fuel ss d = refl
