-- ===== src/System/Run.antt =====
-- Sequences of calls of the adapters of one table: the accesses of src/regtable_modbus.c,
-- src/regtable_cli.c and src/regtable_mqtt.c together.
use regtable.Prelude.{◌<◌, ◌≡◌, ◌⊎◌, inl, inr, refl, sym, ◌∙◌, length}
use regtable.Prelude.{Option, some, List, [], ◌∷◌, ◌>>=◌}
use std.Path.{subst}
use regtable.Core.Types.{Device, RegTable}
use regtable.Core.Dirty.{reg_poll}
use regtable.Core.Access.{Accesses, Each}
use regtable.Core.Access.Keeps.{HooksKeep, IsStable, Accesses-keeps, reg_poll-keeps}
use regtable.Core.Access.Sound.{
  IsLaid, IsValid, IsUntouched, IsValid-IsStable, IsUntouched-IsStable,
}
use regtable.Core.Text.Access.{IsLibc}
use regtable.Modbus.Crc.Laws.{AllBytes}
use regtable.Modbus.Pdu.{Reply}
use regtable.Modbus.Pdu.Loops.{Returns}
use regtable.Modbus.Pdu.Replies.{Yields, yielded, Yields-bind}
use regtable.Modbus.Frame.{regmb_process, regmb_process_tcp}
use regtable.Modbus.Frame.Access.{regmb_process-Reached, regmb_process_tcp-Reached}
use regtable.Modbus.Frame.Response.{regmb_process-IsResponse}
use regtable.Modbus.Frame.Tcp.{regmb_process_tcp-IsTcpResponse}
use regtable.Cli.Feed.{regcli_feed}
use regtable.Cli.Feed.Access.{regcli_feed-Bound}
use regtable.Mqtt.Handle.Access.{regmqtt_handle-Accesses}
use regtable.Mqtt.Poll.Access.{regmqtt_poll-Accesses, regmqtt_publish_all-Accesses}
use regtable.System.{
  Setup, System, Event, frame, adu, byte, message, publish_changes, publish_everything,
  deferred_hooks, with_device, with_reply, handle, run,
}

-- What comes over Modbus is bytes.
abbrev pub Fed : Event → Type 0
Fed (frame bytes room) = AllBytes bytes
Fed (adu bytes room) = AllBytes bytes
Fed _ = Unit

abbrev pub AllFed : List Event → Type 0
AllFed [] = Unit
AllFed (e ∷ es) = Fed e × AllFed es

Each-some {ℓ κ} : {A : Type ℓ} (P : A → Type κ) (o : Option A) (a : A) → o ≡ some a → Each P o → P a
Each-some P o a is h = subst (Each P) is h

module _ {ℓ} {W : Type ℓ} (u : Setup W) where
  abbrev table : RegTable
  table = u.modbus.table

  -- The C library's floats have 32 bits, the table counts its entries, and the slave has an
  -- address of a byte.
  pub record IsSetup : Type 0 where
    pub floats : IsLibc u.libc
    pub whole : table.count ≡ length table.entries
    pub slave : u.modbus.addr < 256

  -- The terminal is at the table of the other adapters.
  abbrev pub IsShared : System W → Type 0
  IsShared s = s.cli.table ≡ table

  -- One call: the tables are shared still, and the device is reached by accesses of entries of
  -- the table, or it was the turn of `reg_poll`.
  pub record Stepped (e : Event) (s s' : System W) : Type 0 where
    pub shared : IsShared s'
    pub moved :
        Accesses table s.session.device s'.session.device
        ⊎ ((e ≡ deferred_hooks) × (s'.session.device ≡ (reg_poll (some table) s.session.device).1))

  replied :
      (e : Event) (s : System W) (o : Option Reply)
      → IsShared s
      → Returns o
      → Each (λ (r : Reply). Accesses table s.session.device r.1) o
      → Yields (Stepped e s) (o >>= with_reply s)
  replied e s o shared returns reached =
      Yields-bind (Stepped e s) o (with_reply s) returns λ reply is.
        yielded (Stepped e s) _ (record {
          shared = shared;
          moved =
              inl
                (Each-some (λ (r : Reply). Accesses table s.session.device r.1) o reply is reached);
        })

  -- One access path: whatever arrives, a call of an adapter returns, and changes the device only by
  -- `reg_get_raw` and `reg_set_raw` of entries of the table, with values of 32 bits. Only `reg_poll`
  -- does anything else.
  pub handle-Stepped :
      (s : System W) (e : Event)
      → IsSetup
      → IsShared s
      → Fed e
      → Yields (Stepped e s) (handle u s e)
  unfolding handle
  handle-Stepped s (frame bytes room) ok shared all =
      let d = s.session.device in
      let (reply, is, _) = regmb_process-IsResponse u.modbus bytes room d ok.slave all in
      replied _ s (regmb_process u.modbus bytes room d) shared (reply, is)
        (regmb_process-Reached u.modbus d bytes room)
  handle-Stepped s (adu bytes room) ok shared all =
      let d = s.session.device in
      let (reply, is, _) = regmb_process_tcp-IsTcpResponse u.modbus bytes room d all in
      replied _ s (regmb_process_tcp u.modbus bytes room d) shared (reply, is)
        (regmb_process_tcp-Reached u.modbus d bytes room)
  handle-Stepped s (byte b) ok shared all =
      let d = s.session.device in
      let (ws, cli, d') = regcli_feed u.libc u.build s.cli b d in
      let fed = regcli_feed-Bound u.libc u.build ok.floats s.cli d b in
      yielded (Stepped (byte b) s) (with_device (record s { cli = cli }) d') (record {
        shared = fed.same ∙ shared;
        moved = inl (subst (λ (t : RegTable). Accesses t d d') shared fed.reached);
      })
  handle-Stepped s (message topic payload) ok shared all = yielded (Stepped _ s) _ (record {
    shared = shared;
    moved =
        inl
          (regmqtt_handle-Accesses u.libc table ok.floats u.prefix topic payload s.session.device);
  })
  handle-Stepped s publish_changes ok shared all = yielded (Stepped _ s) _ (record {
    shared = shared;
    moved = inl (regmqtt_poll-Accesses u.libc u.publish u.prefix table s.session);
  })
  handle-Stepped s publish_everything ok shared all = yielded (Stepped _ s) _ (record {
    shared = shared;
    moved = inl (regmqtt_publish_all-Accesses u.libc u.publish u.prefix table s.session);
  })
  handle-Stepped s deferred_hooks ok shared all =
      yielded (Stepped _ s) _ (record { shared = shared; moved = inr (refl, refl) })

  -- The tables are shared, and the device has the property.
  abbrev pub Kept {κ} : (Device → Type κ) → System W → Type κ
  Kept I s = IsShared s × I s.session.device

  module _ (ok : IsSetup) where
    module _ {κ} (I : Device → Type κ) (hooks : HooksKeep table I) (stable : IsStable table I) where
      Stepped-keeps :
          (e : Event) (s s' : System W) → Stepped e s s' → I s.session.device → Kept I s'
      Stepped-keeps e s s' step now = (
        step.shared,
        elim step.moved [
          | inl reached ↦ Accesses-keeps table I hooks stable reached now
          | inr (_, polled) ↦
              subst I (sym polled)
                (reg_poll-keeps table I hooks stable s.session.device ok.whole now)
        ],
      )

      -- Any sequence of calls ends well, in a system with the same property.
      pub run-keeps :
          (events : List Event) (s : System W)
          → IsShared s
          → AllFed events
          → I s.session.device
          → Yields (Kept I) (run u s events)
      unfolding run
      run-keeps [] s shared fed now = yielded (Kept I) s (shared, now)
      run-keeps (e ∷ es) s shared fed now =
          let (s', is, step) = handle-Stepped s e ok shared fed.0 in
          let kept = Stepped-keeps e s s' step now in
          Yields-bind (Kept I) (handle u s e) (λ x. run u x es) (s', is)
            λ x is'.
              subst (λ (y : System W). Yields (Kept I) (run u y es))
                (let same : s' ≡ x = cc (is, is') in same) (run-keeps es s' kept.0 fed.1 kept.1)

    -- Every writable variable holds a value of its type within its limits after any sequence of
    -- calls, whatever arrives at whichever adapter, if it did before, the variables share no byte,
    -- and the hooks of the table keep it so.
    pub run-IsValid :
        (events : List Event) (s : System W)
        → IsLaid table.entries
        → HooksKeep table (IsValid table)
        → IsShared s
        → AllFed events
        → IsValid table s.session.device
        → Yields (Kept (IsValid table)) (run u s events)
    run-IsValid events s laid hooks shared fed now =
        run-keeps (IsValid table) hooks (IsValid-IsStable table laid) events s shared fed now

    -- No sequence of calls changes the value of a read-only variable, whatever arrives at whichever
    -- adapter, if the variables share no byte and no hook of the table changes one.
    pub run-IsUntouched :
        (events : List Event) (s : System W)
        → IsLaid table.entries
        → HooksKeep table (IsUntouched table s.session.device)
        → IsShared s
        → AllFed events
        → Yields (Kept (IsUntouched table s.session.device)) (run u s events)
    run-IsUntouched events s laid hooks shared fed =
        run-keeps (IsUntouched table s.session.device) hooks
          (IsUntouched-IsStable table laid s.session.device) events s shared fed
          (λ e at fixed. refl)
