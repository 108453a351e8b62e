-- ===== src/MqttDemo.antt =====
-- example_mqtt_desktop.c: the adapter of src/regtable_mqtt.c on a terminal, which stands in for the
-- broker. Of what is printed, the messages that are published are modelled.
pub mod Topics
pub mod Heard
pub mod Current
mod Examples
use regtable.Prelude.{ℕ, zero, suc, ◌+◌, Bool, true, false, ◌||◌, ◌==◌, if◌then◌else◌, codes}
use regtable.Prelude.{Option, none, some, List, [], ◌∷◌, ◌++◌}
use regtable.Core.Types.{
  reg_u16, reg_float, reg_bool, reg_ro, reg_rw, RegResult, reg_ok, Text, Device, RegEntry, RegTable,
  RegIdentity,
}
use regtable.Core.Memory.{load_raw, store_raw}
use regtable.Core.Dirty.{reg_poll}
use regtable.Core.Table.{str_eq, reg_table_init}
use regtable.Core.Text.{Libc}
use regtable.Core.Format.{Build}
use regtable.Mqtt.Handle.{regmqtt_handle}
use regtable.Mqtt.Poll.{Session, Publish, regmqtt_poll, regmqtt_publish_all}
use regtable.Mqtt.Init.{RegMqtt, regmqtt_init, regmqtt_set_identity}
use regtable.Mqtt.Announce.{regmqtt_announce}

-- Where the linker puts the variables and the table.
pub record Layout : Type 0 where
  pub temp : ℕ
  pub interval : ℕ
  pub led : ℕ
  pub gain : ℕ
  pub registry : ℕ

abbrev pub temp_entry : Layout → RegEntry
temp_entry l = record {
  name = codes "temp";
  ptr = l.temp;
  type = reg_float;
  perm = reg_ro;
  modbus_addr = 0;
  min = 0;
  max = 0;
  on_write = none;
  on_read = none;
  on_change = none;
  description = some (codes "Drifting fake sensor");
}

abbrev pub interval_entry : Layout → RegEntry
interval_entry l = record (temp_entry l) {
  name = codes "interval";
  ptr = l.interval;
  type = reg_u16;
  perm = reg_rw;
  min = 100;
  max = 60000;
  description = none;
}

-- The hook `led_changed` prints.
abbrev pub led_entry : Layout → RegEntry
led_entry l = record (temp_entry l) {
  name = codes "led";
  ptr = l.led;
  type = reg_bool;
  perm = reg_rw;
  on_change = some (λ d. d);
  description = none;
}

-- The limits are 0.5 and 2.5.
abbrev pub gain_entry : Layout → RegEntry
gain_entry l = record (temp_entry l) {
  name = codes "gain";
  ptr = l.gain;
  perm = reg_rw;
  min = 0x3f000000;
  max = 0x40200000;
  description = none;
}

unfoldable pub registry : Layout → List RegEntry
registry l = temp_entry l ∷ interval_entry l ∷ led_entry l ∷ gain_entry l ∷ []

-- A message, and whether it is retained, as it was printed.
abbrev pub Broker : Type 0
Broker = List (Text × Text × Bool)

abbrev pub print_publish : Publish Broker
print_publish topic payload retain heard = (true, heard ++ ((topic, payload, retain) ∷ []))

abbrev pub who : RegIdentity
who = record { device = some (codes "demo"); fw = some (codes "1.0"); hash = none; chip = none }

abbrev pub prefix : Text
prefix = codes "demo"

-- `fgets` with room for `n` bytes: what is read, up to the end of a line, and what is left. Nothing
-- is read at the end of the input only.
unfoldable pub fgets : ℕ → List ℕ → List ℕ × List ℕ
fgets n [] = ([], [])
fgets zero (b ∷ input) = ([], b ∷ input)
fgets (suc n) (b ∷ input) =
    let (line, rest) = fgets n input in if b == b'\n' then (b ∷ [], input) else (b ∷ line, rest)

-- `sizeof(line)`, less the NUL
abbrev pub line_room : ℕ
line_room = 127

-- `line[strcspn(line, "\r\n")] = '\0'`: the text of the line.
pub line_text : List ℕ → Text
line_text [] = []
line_text (b ∷ line) =
    let rest = line_text line in if b == 0 || b == b'\r' || b == b'\n' then [] else b ∷ rest

abbrev in_front : ℕ → Option (Text × Text) → Option (Text × Text)
in_front b none = none
in_front b (some (topic, payload)) = some (b ∷ topic, payload)

-- `strchr(line, ' ')`: what is in front of the space, and what is behind it.
pub split_space : Text → Option (Text × Text)
split_space [] = none
split_space (b ∷ line) =
    let rest = split_space line in if b == b' ' then some ([], line) else in_front b rest

abbrev pub no_bytes : List ℕ → Bool
no_bytes [] = true
no_bytes (b ∷ s) = false

-- `plus_third` is `+ 0.3f`, on the bits of a float.
module _ (c : Libc) (b : Build) (plus_third : ℕ → ℕ) (l : Layout) where
  -- A line with a space in it is a message; any other has no effect.
  pub inject : RegTable → Option (Text × Text) → Device → Device
  inject t none d = d
  inject t (some (topic, payload)) d = (regmqtt_handle c t prefix topic payload d).1

  -- `temp += 0.3f`
  abbrev pub live_on : Device → Device
  live_on d = record d {
    mem = store_raw (temp_entry l) (plus_third (load_raw (temp_entry l) d.mem)) d.mem;
  }

  -- One turn of the loop, for a line that does not end it. An empty line has no space in it.
  unfoldable pub turn : RegTable → Text → Session Broker → Session Broker
  unfolding inject split_space
  turn t line s =
      let d = (reg_poll (some t) (live_on (inject t (split_space line) s.device))).1 in
      (regmqtt_poll c print_publish t prefix (record s { device = d })).1

  -- The loop, for so many turns; `none` if they do not suffice.
  unfoldable pub loop : RegTable → ℕ → List ℕ → Session Broker → Option (Session Broker)
  unfolding turn fgets line_text
  loop t zero input s = none
  loop t (suc fuel) input s =
      let (read, input') = fgets line_room input in
      let line = line_text read in
      let rest = loop t fuel input' (turn t line s) in
      if no_bytes read then some s else if str_eq line (codes "quit") then some s else rest

  abbrev ended : Option (Session Broker) → Option (ℕ × Session Broker)
  ended none = none
  ended (some s) = some (0, s)

  -- `main` from `regmqtt_announce` on; on an adapter that is not bound, a poll would fault.
  pub run_bound : RegMqtt → ℕ → List ℕ → Device → Option RegTable → Option (ℕ × Session Broker)
  unfolding loop
  run_bound mq fuel input d none = none
  run_bound mq fuel input d (some t) =
      let (sent, heard) = regmqtt_announce c b print_publish (some mq) [] in
      let s : Session Broker = record {
        shadow = mq.shadow;
        synced = mq.synced;
        device = d;
        client = heard;
      } in
      ended (loop t fuel input (regmqtt_publish_all c print_publish t prefix s).1)

  -- `main` behind `regmqtt_set_identity`: the exit status and the session.
  pub identified : ℕ → List ℕ → Device → RegResult × Option RegMqtt → Option (ℕ × Session Broker)
  unfolding run_bound
  identified fuel input d (res, none) = none
  identified fuel input d (reg_ok, some mq) = run_bound mq fuel input d mq.table
  identified fuel input d (_, some mq) =
      some (1, record { shadow = mq.shadow; synced = mq.synced; device = d; client = [] })

  -- `memory` is the static `mq`; what the first two functions return is not looked at.
  unfoldable pub main : RegMqtt → ℕ → List ℕ → Device → Option (ℕ × Session Broker)
  unfolding identified
  main memory fuel input d =
      let (res, table, d') = reg_table_init l.registry (registry l) d in
      let (res', mq) = regmqtt_init c (some memory) table (some prefix) true in
      identified fuel input d' (regmqtt_set_identity b mq (some who))
