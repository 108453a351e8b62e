-- ===== src/System.antt =====
-- One table behind every adapter of src/regtable_modbus.c, src/regtable_cli.c and
-- src/regtable_mqtt.c at once, as in the application of README.md: what arrives, in any order, and
-- what the calls of the adapters do with it.
pub mod Run
pub mod Outcome
mod Examples
use regtable.Prelude.{ℕ, ◌≡◌, Option, some, List, [], ◌∷◌, ◌>>=◌}
use regtable.Core.Types.{Text, Device, RegTable}
use regtable.Core.Dirty.{reg_poll}
use regtable.Core.Text.{Libc}
use regtable.Core.Format.{Build}
use regtable.Modbus.Map.{RegModbus}
use regtable.Modbus.Pdu.{Reply}
use regtable.Modbus.Frame.{regmb_process, regmb_process_tcp}
use regtable.Cli.Feed.{RegCli, regcli_feed}
use regtable.Mqtt.Handle.{regmqtt_handle}
use regtable.Mqtt.Poll.{Session, Publish, regmqtt_poll, regmqtt_publish_all}

-- What does not change: the C library, the texts of the compiler, the publish function, the Modbus
-- slave with its table, and the prefix of the topics.
pub record Setup {ℓ} (W : Type ℓ) : Type ℓ where
  pub libc : Libc
  pub build : Build
  pub publish : Publish W
  pub modbus : RegModbus
  pub prefix : Text

-- The session of the terminal, and the session of the publisher with the device.
pub record System {ℓ} (W : Type ℓ) : Type ℓ where
  pub cli : RegCli
  pub session : Session W

-- A frame or an ADU with the room for its answer, a byte of the terminal, a message, and the turns
-- of the main loop: `regmqtt_poll`, `regmqtt_publish_all` and `reg_poll`.
pub data Event : Type 0 where
  frame adu : List ℕ → ℕ → Event
  byte : ℕ → Event
  message : Text → Text → Event
  publish_changes publish_everything deferred_hooks : Event

module _ {ℓ} {W : Type ℓ} where
  -- The device after a call; what the call answers goes to its caller.
  abbrev pub with_device : System W → Device → System W
  with_device s d = record s { session = record s.session { device = d } }

  abbrev pub with_reply : System W → Reply → Option (System W)
  with_reply s reply = some (with_device s reply.1)

  -- One call of an adapter; `none` is a read out of bounds in it.
  unfoldable pub handle : Setup W → System W → Event → Option (System W)
  handle u s (frame bytes room) =
      regmb_process u.modbus bytes room s.session.device >>= with_reply s
  handle u s (adu bytes room) =
      regmb_process_tcp u.modbus bytes room s.session.device >>= with_reply s
  handle u s (byte b) =
      let (ws, cli, d) = regcli_feed u.libc u.build s.cli b s.session.device in
      some (with_device (record s { cli = cli }) d)
  handle u s (message topic payload) =
      let (res, d) = regmqtt_handle u.libc u.modbus.table u.prefix topic payload s.session.device in
      some (with_device s d)
  handle u s publish_changes =
      some
        (record s { session = (regmqtt_poll u.libc u.publish u.modbus.table u.prefix s.session).1 })
  handle u s publish_everything = some (record s {
    session = (regmqtt_publish_all u.libc u.publish u.modbus.table u.prefix s.session).1;
  })
  handle u s deferred_hooks =
      some (with_device s (reg_poll (some u.modbus.table) s.session.device).1)

  unfoldable pub run : Setup W → System W → List Event → Option (System W)
  unfolding handle
  run u s [] = some s
  run u s (e ∷ es) = handle u s e >>= (λ s'. run u s' es)
