-- ===== src/Mqtt/Announce.antt =====
-- The description of the table, of src/regtable_mqtt.c: `regmqtt_announce`.
pub mod Laws
mod Examples
use regtable.Prelude.{ℕ, ◌+◌, ◌-◌, ◌%◌, ◌^◌, Bool, true, not, ◌&&◌, ltb, if◌then◌else◌, codes}
use regtable.Prelude.{Option, none, some, List, [], ◌∷◌, ◌++◌, length, take}
use regtable.Core.Types.{Text, RegEntry, RegTable, RegIdentity}
use regtable.Core.Schema.{reg_table_schema}
use regtable.Core.Text.{Libc, format_lu}
use regtable.Core.Format.{Build, format_x}
use regtable.Mqtt.Appender.{Appender, ap_printf}
use regtable.Mqtt.Meta.{meta_size, meta_body_size, meta_body, empty, id_payload}
use regtable.Mqtt.Poll.{topic_size, Publish}
use regtable.Mqtt.Init.{RegMqtt}

unfoldable pub fits : ℕ → ℕ → Bool
fits n size = ltb 0 n && ltb n size

-- `snprintf` into a buffer of `size`: the text, cut off, where the length that was wanted fits.
abbrev pub printed : ℕ → Text → Text
printed size s = take (size - 1) s

abbrev pub trailer : ℕ → Text
trailer fp = codes ",\"schema\":\"" ++ format_x 8 fp ++ codes "\"}"

-- The appender of one payload: the body, and the trailer in the reserved room.
unfoldable pub meta_payload : Libc → RegEntry → ℕ → ℕ → Appender
unfolding meta_body ap_printf
meta_payload c e index fp =
    ap_printf (record (meta_body c (empty meta_body_size) e index true) { size = meta_size })
      (trailer fp)

module _ {ℓ} {W : Type ℓ} where
  -- A message is handed over, and counted if it is accepted.
  abbrev pub offer : Publish W → Text → Text → ℕ × W → ℕ × W
  offer publish topic payload (sent, w) =
      let (accepted, w') = publish topic payload true w in
      (if accepted then (sent + 1) % 2 ^ 32 else sent, w')

  pub announce_table : Publish W → RegTable → Text → ℕ → ℕ × W → ℕ × W
  unfolding fits
  announce_table publish t prefix fp s =
      let topic = prefix ++ codes "/$meta/$table" in
      let payload = codes "{\"count\":" ++ format_lu t.count ++ trailer fp in
      if fits (length topic) topic_size
      then (if fits (length payload) meta_size
          then offer publish (printed topic_size topic) (printed meta_size payload) s
          else s)
      else s

  pub announce_id : Publish W → Build → RegTable → Text → Option RegIdentity → ℕ → ℕ × W → ℕ × W
  unfolding fits id_payload
  announce_id publish b t prefix id fp s =
      let topic = prefix ++ codes "/$meta/$id" in
      let (fit, payload) = id_payload b t.count id fp in
      if fits (length topic) topic_size && fit
      then offer publish (printed topic_size topic) payload s
      else s

  -- One round of the loop, for the entry with index `i`.
  pub announce_entry : Libc → Publish W → Text → ℕ → RegEntry → ℕ → ℕ × W → ℕ × W
  unfolding fits meta_payload
  announce_entry c publish prefix fp e i s =
      let a = meta_payload c e (i % 2 ^ 16) fp in
      let topic = prefix ++ codes "/$meta/" ++ e.name in
      if a.overflow
      then s
      else if not (fits (length topic) topic_size)
      then s
      else offer publish (printed topic_size topic) a.text s

  pub announce_entries : Libc → Publish W → Text → ℕ → List RegEntry → ℕ → ℕ × W → ℕ × W
  unfolding announce_entry
  announce_entries c publish prefix fp [] i s = s
  announce_entries c publish prefix fp (e ∷ es) i s =
      announce_entries c publish prefix fp es (i + 1) (announce_entry c publish prefix fp e i s)

  -- `regmqtt_announce` of a bound adapter
  pub announce_all : Libc → Build → Publish W → RegMqtt → RegTable → W → ℕ × W
  unfolding announce_table announce_id announce_entries reg_table_schema
  announce_all c b publish mq t w =
      let fp = reg_table_schema (some t) in
      let table = announce_table publish t mq.prefix fp (0, w) in
      let id = announce_id publish b t mq.prefix mq.identity fp table in
      announce_entries c publish mq.prefix fp t.entries 0 id

  pub announce_on : Libc → Build → Publish W → RegMqtt → W → Option RegTable → ℕ × W
  unfolding announce_all
  announce_on c b publish mq w none = (0, w)
  announce_on c b publish mq w (some t) = announce_all c b publish mq t w

  unfoldable pub regmqtt_announce : Libc → Build → Publish W → Option RegMqtt → W → ℕ × W
  unfolding announce_on
  regmqtt_announce c b publish none w = (0, w)
  regmqtt_announce c b publish (some mq) w = announce_on c b publish mq w mq.table
