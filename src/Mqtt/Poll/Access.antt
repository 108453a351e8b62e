-- ===== src/Mqtt/Poll/Access.antt =====
-- The accesses of `regmqtt_poll` of src/regtable_mqtt.c.
use regtable.Prelude.{ℕ, ◌+◌, ◌&&◌, ◌==◌, if_cases, Bool}
use regtable.Prelude.{List, [], ◌∷◌, get_or, true}
use regtable.Core.Types.{Text, Device, RegEntry, RegTable}
use regtable.Core.Raw.{reg_get_raw}
use regtable.Core.Text.{Libc, reg_raw_str}
use regtable.Core.Access.{Listed, AllListed, AllListed-self, Accesses, start, read, Accesses-join}
use regtable.Mqtt.Poll.{
  Session, Publish, is_synced, state_topic, record_answer, poll_one, poll_rest, regmqtt_poll,
  regmqtt_publish_all,
}

module _ {ℓ} {W : Type ℓ} (c : Libc) (publish : Publish W) (prefix : Text) (t : RegTable) where
  -- The device of the session is reached by accesses.
  abbrev Reached : Device → ℕ × Session W → Type 0
  Reached d o = Accesses t d o.1.device

  record_answer-Reached :
      (i raw sent : ℕ) (s : Session W) (answer : Bool × W) (d : Device)
      → Accesses t d s.device
      → Reached d (record_answer i raw sent s answer)
  record_answer-Reached i raw sent s (accepted, w) d h =
      if_cases (Reached d) accepted _ _ (λ taken. h) (λ refused. h)

  poll_one-Reached :
      (e : RegEntry) (i sent : ℕ) (s : Session W)
      → Listed t.entries e
      → Reached s.device (poll_one c publish prefix e i sent s)
  unfolding poll_one
  poll_one-Reached e i sent s at =
      let (raw, d) = reg_get_raw e s.device in
      let now : Session W = record s { device = d } in
      let one : Accesses t s.device d = read e start at in
      if_cases (Reached s.device) (is_synced s.synced i && raw == get_or s.shadow i 0) _ _
        (λ current. one)
        (λ stale.
          record_answer-Reached i raw sent now
            (publish (state_topic prefix e) (reg_raw_str c e raw 32).1 true s.client) s.device one)

  poll_rest-Reached :
      (es : List RegEntry) (i sent : ℕ) (s : Session W)
      → AllListed t.entries es
      → Reached s.device (poll_rest c publish prefix es i sent s)
  unfolding poll_rest
  poll_rest-Reached [] i sent s at = start
  poll_rest-Reached (e ∷ es) i sent s at =
      let (sent', s') = poll_one c publish prefix e i sent s in
      Accesses-join (poll_one-Reached e i sent s at.0) (poll_rest-Reached es (i + 1) sent' s' at.1)

  pub regmqtt_poll-Accesses :
      (s : Session W) → Accesses t s.device (regmqtt_poll c publish t prefix s).1.device
  unfolding regmqtt_poll
  regmqtt_poll-Accesses s = poll_rest-Reached t.entries 0 0 s (AllListed-self t.entries)

  pub regmqtt_publish_all-Accesses :
      (s : Session W) → Accesses t s.device (regmqtt_publish_all c publish t prefix s).1.device
  unfolding regmqtt_publish_all
  regmqtt_publish_all-Accesses s = regmqtt_poll-Accesses (record s { synced = _ })
