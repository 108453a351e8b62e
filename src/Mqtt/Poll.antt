-- ===== src/Mqtt/Poll.antt =====
-- Publishing, of src/regtable_mqtt.c: `regmqtt_poll` and `regmqtt_publish_all`.

pub mod Access
pub mod Marks
pub mod Messages
pub mod State
pub mod Sent
pub mod Converge
pub mod Full
use regtable.Prelude.{
  ℕ, zero, suc, ◌+◌, ◌-◌, ◌/◌, ◌%◌, ◌^◌, Bool, true, false, ◌&&◌, Option, List, [], ◌∷◌, ◌++◌,
}
use regtable.Prelude.{◌==◌, if◌then◌else◌, get_or, set, take, bit_and, bit_or, replicate}
use regtable.Core.Types.{Text, Device, RegEntry, RegTable}
use regtable.Core.Dirty.{word_at, dirty_words}
use regtable.Core.Raw.{reg_get_raw}
use regtable.Core.Text.{Libc, reg_raw_str}

-- REGTABLE_MQTT_TOPIC_SIZE, at its default
abbrev pub topic_size : ℕ
topic_size = 64

-- What a poll changes: the fields `shadow` and `synced` of the adapter, the device, and what the
-- client of the application keeps.
pub record Session {ℓ} (W : Type ℓ) : Type ℓ where
  pub shadow : List ℕ
  pub synced : List ℕ
  pub device : Device
  pub client : W

-- The function `publish`, with its `user`: a topic, a payload and `retain`, to whether the message
-- was accepted.
abbrev pub Publish {ℓ} : Type ℓ → Type ℓ
Publish W = Text → Text → Bool → W → Bool × W

unfoldable pub is_synced : List ℕ → ℕ → Bool
is_synced synced i = word_at synced (i / 32) / 2 ^ (i % 32) % 2 == 1

pub set_synced : List ℕ → ℕ → Bool → List ℕ
set_synced synced i on = set synced (i / 32) (
    if on
    then bit_or (word_at synced (i / 32)) (2 ^ (i % 32))
    else bit_and (word_at synced (i / 32)) (2 ^ 32 - 1 - 2 ^ (i % 32)))

-- `snprintf` into a buffer of `topic_size`
abbrev pub state_topic : Text → RegEntry → Text
state_topic prefix e = take (topic_size - 1) (prefix ++ (b'/' ∷ e.name))

module _ {ℓ} {W : Type ℓ} where
  -- What follows the answer of `publish`.
  abbrev pub record_answer : ℕ → ℕ → ℕ → Session W → Bool × W → ℕ × Session W
  record_answer i raw sent s (accepted, w) =
      if accepted
      then (
        (sent + 1) % 2 ^ 16,
        record s { shadow = set s.shadow i raw; synced = set_synced s.synced i true; client = w },
      )
      else (sent, record s { synced = set_synced s.synced i false; client = w })

  -- One round, for the entry with index `i`.
  pub poll_one : Libc → Publish W → Text → RegEntry → ℕ → ℕ → Session W → ℕ × Session W
  unfolding is_synced set_synced
  poll_one c publish prefix e i sent s =
      let (raw, d) = reg_get_raw e s.device in
      let read = record s { device = d } in
      if is_synced s.synced i && raw == get_or s.shadow i 0
      then (sent, read)
      else record_answer i raw sent read
          (publish (state_topic prefix e) (reg_raw_str c e raw 32).1 true s.client)

  -- The loop, from index `i` on.
  pub poll_rest : Libc → Publish W → Text → List RegEntry → ℕ → ℕ → Session W → ℕ × Session W
  unfolding poll_one
  poll_rest c publish prefix [] i sent s = (sent, s)
  poll_rest c publish prefix (e ∷ es) i sent s =
      let (sent', s') = poll_one c publish prefix e i sent s in
      poll_rest c publish prefix es (i + 1) sent' s'

  unfoldable pub regmqtt_poll : Libc → Publish W → RegTable → Text → Session W → ℕ × Session W
  unfolding poll_rest
  regmqtt_poll c publish t prefix s = poll_rest c publish prefix t.entries 0 0 s

  unfoldable pub regmqtt_publish_all :
      Libc → Publish W → RegTable → Text → Session W → ℕ × Session W
  unfolding regmqtt_poll
  regmqtt_publish_all c publish t prefix s =
      regmqtt_poll c publish t prefix (record s { synced = replicate dirty_words 0 })
