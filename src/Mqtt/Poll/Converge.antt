-- ===== src/Mqtt/Poll/Converge.antt =====
-- `regmqtt_poll` where every message is accepted.
use regtable.Prelude.{ℕ, ◌+◌, ◌<◌, ◌≤◌, ◌≡◌, ◌∙◌, sym, refl, arith, inl, inr}
use regtable.Prelude.{true, ◌&&◌, none, List, [], ◌∷◌, ◌==◌}
use regtable.Prelude.{length, get_or, Bool-cases}
use regtable.Core.Types.{Text, RegEntry, RegTable}
use regtable.Core.Memory.{load_raw}
use regtable.Core.Dirty.{max_entries}
use regtable.Core.Text.{Libc, reg_raw_str}
use regtable.Mqtt.Poll.{Session, Publish, is_synced, state_topic, poll_one, poll_rest, regmqtt_poll}
use regtable.Core.Raw.Effect.{AllPlain, plain_read}
use regtable.Mqtt.Poll.Marks.{is_synced-marked}
use regtable.Mqtt.Poll.Messages.{stale_messages, deliver}
use regtable.Mqtt.Poll.Sent.{poll_rest-deliver}
use regtable.Mqtt.Poll.State.{
  IsSession, IsCurrent, AllCurrent, Touched, untouched, published-Touched, published-IsCurrent,
  still-IsCurrent, Touched-join,
}

module _ {ℓ} {W : Type ℓ} where
  current_skips :
      (c : Libc) (publish : Publish W) (prefix : Text) (e : RegEntry) (i sent : ℕ) (s : Session W)
      → e.on_read ≡ none
      → IsCurrent s e i
      → poll_one c publish prefix e i sent s ≡ (sent, s)
  unfolding poll_one
  current_skips c publish prefix e i sent s plain (synced, same) =
      let equal : (load_raw e s.device.mem == get_or s.shadow i 0) ≡ true = ground arith in
      rw (plain_read e s.device plain, is_synced-marked s.synced i ∙ synced, equal)

  all_skipped :
      (c : Libc) (publish : Publish W) (prefix : Text) (es : List RegEntry) (i sent : ℕ)
      (s : Session W)
      → AllPlain es
      → AllCurrent s es i
      → poll_rest c publish prefix es i sent s ≡ (sent, s)
  unfolding poll_rest
  all_skipped c publish prefix [] i sent s plain all = refl
  all_skipped c publish prefix (e ∷ es) i sent s plain all =
      rw (current_skips c publish prefix e i sent s plain.0 all.0)
        (all_skipped c publish prefix es (i + 1) sent s plain.1 all.1)

  module _ (c : Libc) (publish : Publish W) (prefix : Text)
      (accepted : (topic payload : Text) (w : W) → (publish topic payload true w).0 ≡ true) where
    pub poll_one-IsCurrent :
        (e : RegEntry) (i sent : ℕ) (s : Session W)
        → e.on_read ≡ none
        → IsSession s
        → i < max_entries
        → let s' = (poll_one c publish prefix e i sent s).1 in
          Touched s s' i (i + 1) × IsCurrent s' e i
    unfolding poll_one
    poll_one-IsCurrent e i sent s plain ok small =
        let raw = load_raw e s.device.mem in
        let w = (publish (state_topic prefix e) (reg_raw_str c e raw 32).1 true s.client).1 in
        elim (Bool-cases (is_synced s.synced i && raw == get_or s.shadow i 0)) [
          | inl current ↦
              let mark : is_synced s.synced i ≡ true = ground arith in
              rw (plain_read e s.device plain, current)
                (untouched s i (i + 1) ok, (sym (is_synced-marked s.synced i) ∙ mark, ground arith))
          | inr stale ↦
              rw
                (
                  plain_read e s.device plain,
                  stale,
                  accepted (state_topic prefix e) (reg_raw_str c e raw 32).1 s.client,
                )
                (published-Touched s i raw w ok small, published-IsCurrent s e i w ok small)
        ]

    pub poll_rest-AllCurrent :
        (es : List RegEntry) (i sent : ℕ) (s : Session W)
        → AllPlain es
        → IsSession s
        → i + length es ≤ max_entries
        → let s' = (poll_rest c publish prefix es i sent s).1 in
          Touched s s' i (i + length es) × AllCurrent s' es i
    unfolding poll_rest
    poll_rest-AllCurrent [] i sent s plain ok room = (untouched s i (i + 0) ok, tt)
    poll_rest-AllCurrent (e ∷ es) i sent s plain ok room =
        let (sent1, s1) = poll_one c publish prefix e i sent s in
        let (touched, now) = poll_one-IsCurrent e i sent s plain.0 ok (omega arith) in
        let (touched', all) =
          poll_rest-AllCurrent es (i + 1) sent1 s1 plain.1 touched.ok (omega arith) in
        let s2 = (poll_rest c publish prefix es (i + 1) sent1 s1).1 in
        let upto : i + 1 + length es ≡ i + length (e ∷ es) = omega arith in
        (
          Touched-join s s1 s2 i (i + 1) (i + length (e ∷ es)) (omega arith) (omega arith) touched
              (rw (← upto) touched'),
          (still-IsCurrent s1 s2 e i (i + 1) (i + 1 + length es) touched' (omega arith) now, all),
        )

    -- If every message is accepted, no entry has an `on_read`, there are at most
    -- REGTABLE_MAX_ENTRIES, and the arrays have their lengths, a poll hands to `publish`, in the
    -- order of the table, one message to be retained for each entry that is not marked in sync with
    -- the value that it has, with its topic and its value as `reg_raw_str` prints it, and nothing
    -- else, and returns their number. Every entry is then in sync with the value that it has, and
    -- the device is not changed. The next poll publishes nothing and changes nothing.
    pub regmqtt_poll_converges :
        (t : RegTable) (s : Session W)
        → AllPlain t.entries
        → IsSession s
        → length t.entries ≤ max_entries
        → let (sent, s') = regmqtt_poll c publish t prefix s in
          let ms = stale_messages c prefix s.synced s.shadow s.device.mem t.entries 0 in
          (sent ≡ length ms)
          × (s'.client ≡ deliver publish ms s.client)
          × AllCurrent s' t.entries 0
          × (s'.device ≡ s.device)
          × (regmqtt_poll c publish t prefix s' ≡ (0, s'))
    unfolding regmqtt_poll
    regmqtt_poll_converges t s plain ok room =
        let (touched, all) = poll_rest-AllCurrent t.entries 0 0 s plain ok (omega arith) in
        let (count, client) =
          poll_rest-deliver c publish prefix accepted t.entries 0 0 s plain ok (omega arith)
            (omega arith) in
        (
          count ∙ omega arith,
          client,
          all,
          touched.same,
          all_skipped c publish prefix t.entries 0 0 _ plain all,
        )
