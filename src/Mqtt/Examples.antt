-- ===== src/Mqtt/Examples.antt =====
-- Runs of the MQTT adapter, and its theorems at a small table.
use regtable.Prelude.{◌≡◌, ◌≢◌, ◌⊎◌, refl, arith, none, some, [], ◌∷◌, ◌∙◌, sym, ap, length}
use regtable.Core.Types.{Text, reg_ok, reg_err_not_found, EntryRef}
use regtable.Core.Raw.{reg_set_raw}
use regtable.Core.Table.{reg_find}
use regtable.Core.Text.{reg_set_str}
use regtable.Core.Text.Examples.{libc}
use regtable.Core.Examples.{temp, table, fresh}
use regtable.Mqtt.Handle.{regmqtt_handle}
use regtable.Mqtt.Handle.Laws.{command_topic, IsCommand, regmqtt_handle_set, regmqtt_handle_only}
use regtable.Core.Text.{reg_raw_str}
use regtable.Core.Raw.{reg_get_raw}
use regtable.Core.Memory.{load_raw}
use regtable.Prelude.{List, true, replicate, ◌++◌}
use regtable.Mqtt.Poll.{Session, Publish, is_synced, regmqtt_poll, regmqtt_publish_all}
use regtable.Mqtt.Poll.Full.{regmqtt_publish_all_lem}
use regtable.Mqtt.Poll.Messages.{stale_messages, all_messages, deliver}
use regtable.Mqtt.Poll.State.{IsSession, AllCurrent}
use regtable.Mqtt.Poll.Converge.{regmqtt_poll_converges}

-- "dev", "t", and "42"
abbrev prefix : Text
prefix = b'd' ∷ b'e' ∷ b'v' ∷ []

abbrev name : Text
name = b't' ∷ []

abbrev payload : Text
payload = b'4' ∷ b'2' ∷ []

written : (regmqtt_handle libc table prefix (command_topic prefix name) payload fresh).0 ≡ reg_ok
unfolding regmqtt_handle reg_find reg_set_str reg_set_raw
written = refl

-- "dev/t" is a state topic.
ignored :
    regmqtt_handle libc table prefix (b'd' ∷ b'e' ∷ b'v' ∷ b'/' ∷ b't' ∷ []) payload fresh
    ≡ (reg_err_not_found, fresh)
unfolding regmqtt_handle
ignored = refl

regmqtt_handle_set_example :
    ((reg_find table name ≡ none)
      × (regmqtt_handle libc table prefix (command_topic prefix name) payload fresh
          ≡ (reg_err_not_found, fresh)))
    ⊎ ((r : EntryRef) × (reg_find table name ≡ some r)
        × (regmqtt_handle libc table prefix (command_topic prefix name) payload fresh
            ≡ reg_set_str libc (some table) r payload fresh))
regmqtt_handle_set_example =
    regmqtt_handle_set libc table prefix name payload fresh (ground arith) (omega arith)
      (omega arith)

effective :
    regmqtt_handle libc table prefix (command_topic prefix name) payload fresh
    ≢ (reg_err_not_found, fresh)
effective h = cc (sym written ∙ ap (λ o. o.0) h)

regmqtt_handle_only_example :
    (n : Text) × (r : EntryRef) × IsCommand prefix (command_topic prefix name) n
    × (reg_find table n ≡ some r)
regmqtt_handle_only_example =
    regmqtt_handle_only libc table prefix (command_topic prefix name) payload fresh effective

-- A client that takes every message and keeps it.
abbrev keep : Publish (List (Text × Text))
keep topic message retain kept = (true, kept ++ ((topic, message) ∷ []))

abbrev session : Session (List (Text × Text))
session = record { shadow = replicate 64 0; synced = 0 ∷ 0 ∷ []; device = fresh; client = [] }

all_sent : (regmqtt_poll libc keep table prefix session).0 ≡ 3
unfolding regmqtt_poll is_synced reg_get_raw reg_raw_str load_raw
all_sent = refl

first_message :
    (regmqtt_poll libc keep (record table { entries = temp ∷ [] }) prefix session).1.client
    ≡ (b'd' ∷ b'e' ∷ b'v' ∷ b'/' ∷ b't' ∷ [], b'0' ∷ []) ∷ []
unfolding regmqtt_poll is_synced reg_get_raw reg_raw_str load_raw
first_message = refl

session-IsSession : IsSession session
session-IsSession = record { shadows = refl; words = refl }

regmqtt_poll_converges_example :
    let (sent, s') = regmqtt_poll libc keep table prefix session in
    let ms =
      stale_messages libc prefix session.synced session.shadow session.device.mem table.entries 0 in
    (sent ≡ length ms)
    × (s'.client ≡ deliver keep ms session.client)
    × AllCurrent s' table.entries 0
    × (s'.device ≡ fresh)
    × (regmqtt_poll libc keep table prefix s' ≡ (0, s'))
regmqtt_poll_converges_example =
    regmqtt_poll_converges libc keep prefix (λ topic message w. refl) table session
      (refl, (refl, (refl, tt))) session-IsSession (omega arith)

regmqtt_publish_all_example :
    let (sent, s') = regmqtt_publish_all libc keep table prefix session in
    (sent ≡ 3)
    × (s'.client ≡ deliver keep (all_messages libc prefix fresh.mem table.entries) session.client)
    × AllCurrent s' table.entries 0
regmqtt_publish_all_example =
    regmqtt_publish_all_lem libc keep prefix (λ topic message w. refl) table session
      (refl, (refl, (refl, tt))) session-IsSession (omega arith)
