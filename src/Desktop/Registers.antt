-- ===== src/Desktop/Registers.antt =====
-- The registers of example_desktop.c: the variables, the hooks and the table. What the hooks print
-- is left out.
use regtable.Prelude.{ℕ, ◌+◌, ◌%◌, ◌^◌, Bool, not, ◌&&◌, ◌==◌, codes}
use regtable.Prelude.{none, some, List, [], ◌∷◌}
use regtable.Core.Types.{
  reg_u16, reg_u32, reg_i16, reg_float, reg_bool, reg_ro, reg_rw, Device, RegEntry, RegTable,
}
use regtable.Core.Memory.{load_raw, store_raw}
use regtable.Core.Float.{float_lt}

-- Where the linker puts the variables and the table.
pub record Layout : Type 0 where
  pub temperature : ℕ
  pub interval : ℕ
  pub led_state : ℕ
  pub counter : ℕ
  pub offset : ℕ
  pub gain : ℕ
  pub pump : ℕ
  pub voltage : ℕ
  pub registry : ℕ

-- The sums of floats, on their bits: `adc_counts * 3.3f / 4096.0f`, and `+ 0.5f`.
pub record Fpu : Type 0 where
  pub to_volts : ℕ → ℕ
  pub plus_half : ℕ → ℕ

abbrev pub temp_entry : Layout → RegEntry
temp_entry l = record {
  name = codes "temp";
  ptr = l.temperature;
  type = reg_float;
  perm = reg_ro;
  modbus_addr = 0;
  min = 0;
  max = 0;
  on_write = none;
  on_read = none;
  on_change = some (λ d. d);
  description = some (codes "Water temperature, Celsius");
}

abbrev pub interval_entry : Layout → RegEntry
interval_entry l = record (temp_entry l) {
  name = codes "interval";
  ptr = l.interval;
  type = reg_u16;
  perm = reg_rw;
  min = 100;
  max = 60000;
  on_change = none;
  description = some (codes "Sampling interval, ms");
}

abbrev pub led_entry : Layout → RegEntry
led_entry l = record (temp_entry l) {
  name = codes "led";
  ptr = l.led_state;
  type = reg_bool;
  perm = reg_rw;
  description = some (codes "Status LED");
}

abbrev pub counter_entry : Layout → RegEntry
counter_entry l = record (temp_entry l) {
  name = codes "counter";
  ptr = l.counter;
  type = reg_u32;
  on_change = none;
  description = some (codes "Uptime tick counter");
}

-- The limits are -50 and 50.
abbrev pub offset_entry : Layout → RegEntry
offset_entry l = record (temp_entry l) {
  name = codes "offset";
  ptr = l.offset;
  type = reg_i16;
  perm = reg_rw;
  min = 0xFFFFFFCE;
  max = 50;
  description = some (codes "Calibration offset, signed");
}

-- The limits are 0.5 and 2.5.
abbrev pub gain_entry : Layout → RegEntry
gain_entry l = record (temp_entry l) {
  name = codes "gain";
  ptr = l.gain;
  perm = reg_rw;
  min = 0x3f000000;
  max = 0x40200000;
  on_change = none;
  description = some (codes "Sensor gain multiplier");
}

-- 90.0f
abbrev pub ninety : ℕ
ninety = 0x42b40000

-- No pumping when overheated.
abbrev pub pump_check : Layout → ℕ → Device → Bool × Device
pump_check l raw d = (not (not (raw == 0) && float_lt ninety (load_raw (temp_entry l) d.mem)), d)

abbrev pub pump_entry : Layout → RegEntry
pump_entry l = record (temp_entry l) {
  name = codes "pump";
  ptr = l.pump;
  type = reg_bool;
  perm = reg_rw;
  on_write = some (pump_check l);
  on_change = none;
  description = some (codes "Pump on/off, refused when temp > 90");
}

abbrev voltage_plain : Layout → RegEntry
voltage_plain l = record (temp_entry l) {
  name = codes "voltage";
  ptr = l.voltage;
  on_change = none;
  description = some (codes "Supply voltage from ADC");
}

-- `adc_counts`
abbrev pub adc_counts : Layout → Device → ℕ
adc_counts l d = (2048 + load_raw (counter_entry l) d.mem % 100 % 2 ^ 16) % 2 ^ 16

abbrev pub voltage_read : Fpu → Layout → Device → Device
voltage_read fpu l d = record d {
  mem = store_raw (voltage_plain l) (fpu.to_volts (adc_counts l d)) d.mem;
}

abbrev pub voltage_entry : Fpu → Layout → RegEntry
voltage_entry fpu l = record (voltage_plain l) { on_read = some (voltage_read fpu l) }

unfoldable pub registry : Fpu → Layout → List RegEntry
registry fpu l =
    temp_entry l
    ∷ interval_entry l
    ∷ led_entry l
    ∷ counter_entry l
    ∷ offset_entry l
    ∷ gain_entry l
    ∷ pump_entry l
    ∷ voltage_entry fpu l
    ∷ []

-- The handle that `reg_table_init` binds.
abbrev pub demo_table : Fpu → Layout → RegTable
demo_table fpu l = record { base = l.registry; entries = registry fpu l; count = 8 }
