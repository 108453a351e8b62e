-- ===== src/Mqtt/Poll/Full.antt =====
-- `regmqtt_publish_all` where every message is accepted.
use regtable.Prelude.{ℕ, suc, ◌+◌, ◌≤◌, ◌≡◌, ◌∙◌, ap, refl, arith}
use regtable.Prelude.{true, List, [], ◌∷◌, length, replicate}
use regtable.Core.Types.{Text, RegEntry, RegTable}
use regtable.Core.Dirty.{max_entries, dirty_words}
use regtable.Core.Raw.Effect.{AllPlain}
use regtable.Core.Text.{Libc}
use regtable.Mqtt.Poll.{Session, Publish, regmqtt_poll, regmqtt_publish_all}
use regtable.Mqtt.Poll.Marks.{none_marked}
use regtable.Mqtt.Poll.Messages.{all_messages, deliver, all_stale}
use regtable.Mqtt.Poll.Sent.{poll_rest-deliver}
use regtable.Mqtt.Poll.State.{IsSession, AllCurrent}
use regtable.Mqtt.Poll.Converge.{poll_rest-AllCurrent}

length-all_messages :
    (c : Libc) (prefix : Text) (mem : ℕ → ℕ) (es : List RegEntry)
    → length (all_messages c prefix mem es) ≡ length es
length-all_messages c prefix mem [] = refl
length-all_messages c prefix mem (e ∷ es) = ap suc (length-all_messages c prefix mem es)

module _ {ℓ} {W : Type ℓ} (c : Libc) (publish : Publish W) (prefix : Text)
    (accepted : (topic payload : Text) (w : W) → (publish topic payload true w).0 ≡ true) where
  -- If every message is accepted, no entry has an `on_read`, there are at most
  -- REGTABLE_MAX_ENTRIES, and the arrays have their lengths, `regmqtt_publish_all` hands to
  -- `publish`, in the order of the table, one message to be retained for each entry, whatever was
  -- published before, with its topic and its value as `reg_raw_str` prints it, and nothing else. It
  -- returns their number and leaves every entry in sync with the value that it has.
  pub regmqtt_publish_all_lem :
      (t : RegTable) (s : Session W)
      → AllPlain t.entries
      → IsSession s
      → length t.entries ≤ max_entries
      → let (sent, s') = regmqtt_publish_all c publish t prefix s in
        (sent ≡ length t.entries)
        × (s'.client ≡ deliver publish (all_messages c prefix s.device.mem t.entries) s.client)
        × AllCurrent s' t.entries 0
  unfolding regmqtt_publish_all regmqtt_poll
  regmqtt_publish_all_lem t s plain ok room =
      let s0 : Session W = record s { synced = replicate dirty_words 0 } in
      let ok0 : IsSession s0 = record { shadows = ok.shadows; words = refl } in
      let (count, client) =
        poll_rest-deliver c publish prefix accepted t.entries 0 0 s0 plain ok0 (omega arith)
          (omega arith) in
      let everything =
        all_stale c prefix (replicate dirty_words 0) s.shadow s.device.mem t.entries 0
          (λ j h. none_marked j) in
      (
        count
            ∙ ap (λ ms. 0 + length ms) everything
            ∙ omega (arith, length-all_messages c prefix s.device.mem t.entries),
        client ∙ ap (λ ms. deliver publish ms s.client) everything,
        (poll_rest-AllCurrent c publish prefix accepted t.entries 0 0 s0 plain ok0 (omega arith)).1,
      )
