-- ===== src/System/Examples.antt =====
-- A table with a hook behind all the adapters at once.
use regtable.Prelude.{ℕ, zero, suc, ◌+◌, ◌≤◌, ◌≡◌, sym, ◌∙◌, ◌⊎◌, inr, refl, arith, codes, ◌==◌}
use regtable.Prelude.{
  Option, ◌>>=◌, some, none, List, [], ◌∷◌, false, true, replicate, if◌then◌else◌,
}
use std.Path.{subst}
use regtable.Core.Types.{reg_ok, Text, reg_rw, Device, RegEntry}
use regtable.Core.Memory.{size_of, load_raw, store_raw}
use regtable.Core.Memory.Laws.{load_raw_congr}
use regtable.Core.Dirty.{reg_mark_dirty}
use regtable.Core.Raw.{reg_set_raw}
use regtable.Core.Table.{str_eq, reg_find}
use regtable.Core.Text.{reg_set_str}
use regtable.Modbus.Crc.{regmb_crc16}
use regtable.Modbus.Map.{entry_at}
use regtable.Modbus.Words.{words_to_raw}
use regtable.Modbus.Pdu.{pdu_handle}
use regtable.Modbus.Frame.{crc_matches, regmb_process}
use regtable.Mqtt.Handle.{regmqtt_handle}
use regtable.Core.Examples.{blink, temp, temp_ref, led, count, table, fresh}
use regtable.Core.Access.{Listed}
use regtable.Core.Access.Keeps.{HooksKeep, IsValue}
use regtable.Core.Access.Sound.{IsLaid, IsValid, IsUntouched}
use regtable.Core.Text.Examples.{libc}
use regtable.Mqtt.Poll.Marks.{is_marked}
use regtable.Mqtt.Poll.{Session, Publish, regmqtt_poll}
use regtable.Mqtt.Poll.Messages.{message_of, stale_messages, deliver, IsOneOf}
use regtable.System.Outcome.{regmqtt_poll-reg_set_raw}
use regtable.Prelude.{get_or}
use regtable.Modbus.Pdu.Replies.{Yields}
use regtable.System.{
  Setup, System, Event, frame, adu, byte, message, publish_changes, publish_everything,
  deferred_hooks, handle, run,
}
use regtable.System.Run.{
  IsSetup, AllFed, Kept, Stepped, handle-Stepped, run-IsValid, run-IsUntouched,
}

-- A client that takes every message and keeps it.
abbrev keep : Publish (List (Text × Text))
keep topic payload retain kept = (true, (topic, payload) ∷ kept)

abbrev setup : Setup (List (Text × Text))
setup = record {
  libc = libc;
  build = record { built = codes "today"; compiler = none };
  publish = keep;
  modbus = record { table = table; addr = 17; word_swap = false };
  prefix = b'd' ∷ [];
}

-- The temperature is 20.
abbrev warm : Device
warm = record fresh { mem = λ a. if a == 16 then 20 else 0 }

abbrev system : System (List (Text × Text))
system = record {
  cli = record {
    table = table;
    buf = replicate 128 0;
    pos = 0;
    echo = false;
    overflow = false;
    identity = none;
  };
  session = record { shadow = replicate 64 0; synced = 0 ∷ 0 ∷ []; device = warm; client = [] };
}

abbrev write_frame : Event
write_frame = frame (17 ∷ 6 ∷ 0 ∷ 1 ∷ 1 ∷ 2 ∷ 90 ∷ 203 ∷ []) 256

-- A write of 258 over Modbus, a read of all the words, "set" of the lamp over MQTT, a line, and the
-- turns of the main loop.
abbrev events : List Event
events =
    write_frame
    ∷ adu (0 ∷ 7 ∷ 0 ∷ 0 ∷ 0 ∷ 6 ∷ 9 ∷ 3 ∷ 0 ∷ 1 ∷ 0 ∷ 4 ∷ []) 260
    ∷ message (b'd' ∷ b'/' ∷ b'l' ∷ b'/' ∷ b's' ∷ b'e' ∷ b't' ∷ []) (b'1' ∷ [])
    ∷ byte b'i'
    ∷ byte b'd'
    ∷ byte b'\n'
    ∷ publish_changes
    ∷ deferred_hooks
    ∷ publish_everything
    ∷ []

setup-IsSetup : IsSetup setup
setup-IsSetup = record { floats = λ s. omega arith; whole = refl; slave = omega arith }

table-IsLaid : IsLaid table.entries
table-IsLaid = ground arith

events-AllFed : AllFed events
events-AllFed = ground arith

-- The entries of the table, and what holds of each.
listed {κ} :
    (P : RegEntry → Type κ) (e : RegEntry) → Listed table.entries e → P temp → P led → P count → P e
listed P e (zero, is) a b c = subst P (let at : temp ≡ e = cc is in at) a
listed P e (suc zero, is) a b c = subst P (let at : led ≡ e = cc is in at) b
listed P e (suc (suc zero), is) a b c = subst P (let at : count ≡ e = cc is in at) c
listed P e (suc (suc (suc i)), is) a b c = cc is

-- The variables lie below the byte that the hook flips.
low_in_table : (e : RegEntry) → Listed table.entries e → e.ptr + size_of e.type ≤ 99
low_in_table e at =
    listed (λ (x : RegEntry). x.ptr + size_of x.type ≤ 99) e at (omega arith) (omega arith)
      (omega arith)

blink_apart :
    (e : RegEntry) (d : Device)
    → Listed table.entries e
    → load_raw e (blink d).mem ≡ load_raw e d.mem
blink_apart e d at =
    load_raw_congr e (blink d).mem d.mem (λ a lo hi. ground (arith, low_in_table e at))

-- The one hook of the table.
hook_is_blink :
    (e : RegEntry) (hook : Device → Device)
    → Listed table.entries e
    → e.on_change ≡ some hook
    → blink ≡ hook
hook_is_blink e hook at =
    listed (λ (x : RegEntry). x.on_change ≡ some hook → blink ≡ hook) e at (λ is. cc is)
      (λ is. cc is) (λ is. cc is)

no_on_read : (e : RegEntry) → Listed table.entries e → e.on_read ≡ none
no_on_read e at = listed (λ (x : RegEntry). x.on_read ≡ none) e at refl refl refl

no_on_write : (e : RegEntry) → Listed table.entries e → e.on_write ≡ none
no_on_write e at = listed (λ (x : RegEntry). x.on_write ≡ none) e at refl refl refl

-- What the hook keeps, the table keeps.
kept_by_blink : (I : Device → Type 0) → ((d : Device) → I d → I (blink d)) → HooksKeep table I
kept_by_blink I keeps = record {
  reads = λ e hook d at is now. absurd (cc (is, no_on_read e at));
  writes = λ e hook v d at is now. absurd (cc (is, no_on_write e at));
  changes = λ e hook d at is now.
      subst (λ (h : Device → Device). I (h d)) (hook_is_blink e hook at is) (keeps d now);
}

hooks_keep_values : HooksKeep table (IsValid table)
hooks_keep_values =
    kept_by_blink (IsValid table)
      λ d now e at writable. subst (IsValue e) (sym (blink_apart e d at)) (now e at writable)

hooks_keep_fixed : HooksKeep table (IsUntouched table warm)
hooks_keep_fixed =
    kept_by_blink (IsUntouched table warm) λ d now e at fixed. blink_apart e d at ∙ now e at fixed

warm-IsValid : IsValid table warm
unfolding load_raw
warm-IsValid e at =
    listed (λ (x : RegEntry). x.perm ≡ reg_rw → IsValue x (load_raw x warm.mem)) e at
      (λ w. ground arith) (λ w. (tt, inr tt)) (λ w. cc w)

-- What each of two events leaves in the temperature's variable.
abbrev temperature : Option (System (List (Text × Text))) → Option ℕ
temperature o = o >>= (λ s. some (load_raw temp s.session.device.mem))

written : temperature (handle setup system write_frame) ≡ some 258
unfolding handle load_raw regmb_process crc_matches regmb_crc16 pdu_handle entry_at words_to_raw
    reg_set_raw store_raw reg_mark_dirty
written = refl

told :
    temperature (
      handle setup system
        (message (b'd' ∷ b'/' ∷ b't' ∷ b'/' ∷ b's' ∷ b'e' ∷ b't' ∷ []) (b'9' ∷ b'9' ∷ [])))
    ≡ some 99
unfolding handle load_raw regmqtt_handle reg_find str_eq reg_set_str reg_set_raw store_raw
    reg_mark_dirty
told = refl

handle-Stepped_example : Yields (Stepped setup write_frame system) (handle setup system write_frame)
handle-Stepped_example = handle-Stepped setup system write_frame setup-IsSetup refl (ground arith)

run-IsValid_example : Yields (Kept setup (IsValid table)) (run setup system events)
run-IsValid_example =
    run-IsValid setup setup-IsSetup events system table-IsLaid hooks_keep_values refl events-AllFed
      warm-IsValid

run-IsUntouched_example : Yields (Kept setup (IsUntouched table warm)) (run setup system events)
run-IsUntouched_example =
    run-IsUntouched setup setup-IsSetup events system table-IsLaid hooks_keep_fixed refl
      events-AllFed

warm_written : (reg_set_raw (some table) temp_ref 258 warm).0 ≡ reg_ok
unfolding reg_set_raw
warm_written = refl

regmqtt_poll-reg_set_raw_example :
    let written : Session (List (Text × Text)) = record system.session {
      device = (reg_set_raw (some table) temp_ref 258 warm).1;
    } in
    let s' = (regmqtt_poll libc keep table (b'd' ∷ []) written).1 in
    let ms =
      stale_messages libc
        (b'd' ∷ [])
        system.session.synced
        system.session.shadow
        written.device.mem
        table.entries
        0 in
    (s'.client ≡ deliver keep ms [])
    × (((is_marked system.session.synced 0 ≡ true) × (get_or system.session.shadow 0 0 ≡ 258))
        ⊎ IsOneOf (message_of libc (b'd' ∷ []) temp 258) ms)
    × (is_marked s'.synced 0 ≡ true)
    × (get_or s'.shadow 0 0 ≡ 258)
regmqtt_poll-reg_set_raw_example =
    regmqtt_poll-reg_set_raw libc keep (b'd' ∷ []) table temp_ref 0 258 system.session
      (λ topic payload w. refl) (refl, (refl, (refl, tt))) (omega arith)
      (record { shadows = refl; words = refl }) refl (omega arith) warm_written
