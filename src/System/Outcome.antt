-- ===== src/System/Outcome.antt =====
-- What the MQTT adapter publishes of a write that any adapter made.
use regtable.Prelude.{ℕ, zero, suc, ◌+◌, ◌^◌, ◌<◌, ◌≤◌, ◌≡◌, ◌∙◌, ◌⊎◌, ap, inr, arith}
use regtable.Prelude.{true, some, List, [], ◌∷◌, length, get_elem?, get_or}
use std.Path.{subst}
use regtable.Core.Types.{Text, reg_ok, Device, RegEntry, EntryRef, RegTable}
use regtable.Core.Memory.{size_of, load_raw}
use regtable.Core.Dirty.{max_entries}
use regtable.Core.Raw.{reg_set_raw}
use regtable.Core.Raw.Check.{stored}
use regtable.Core.Raw.Effect.{AllPlain, reg_set_raw_stores}
use regtable.Core.Text.{Libc}
use regtable.Mqtt.Poll.Marks.{is_marked}
use regtable.Mqtt.Poll.{Session, Publish, regmqtt_poll}
use regtable.Mqtt.Poll.Messages.{message_of, stale_messages, deliver, IsOneOf, stale_messages-at}
use regtable.Mqtt.Poll.State.{IsSession, IsCurrent, AllCurrent}
use regtable.Mqtt.Poll.Converge.{regmqtt_poll_converges}

module _ {ℓ} {W : Type ℓ} where
  AllCurrent-at :
      (s : Session W) (es : List RegEntry) (e : RegEntry) (i k : ℕ)
      → AllCurrent s es k
      → get_elem? es i ≡ some e
      → IsCurrent s e (k + i)
  AllCurrent-at s [] e i k all is = cc
  AllCurrent-at s (x ∷ es) e zero k all is =
      let at : x ≡ e = cc is in
      let same : k ≡ k + 0 = omega arith in
      subst (λ (n : ℕ). IsCurrent s e n) same (subst (λ (y : RegEntry). IsCurrent s y k) at all.0)
  AllCurrent-at s (x ∷ es) e (suc i) k all is =
      let same : k + 1 + i ≡ k + suc i = omega arith in
      subst (λ (n : ℕ). IsCurrent s e n) same (AllCurrent-at s es e i (k + 1) all.1 is)

  -- Every message is accepted, no entry has an `on_read`, there are at most REGTABLE_MAX_ENTRIES,
  -- and the arrays have their lengths. A value is written with REG_OK to the
  -- entry with index `i`, by whichever adapter. Then the next poll hands to `publish` the messages
  -- that are due, in order, and nothing else; the message of the value, with the entry's topic and
  -- the stored value as `reg_raw_str` prints it, is one of them, unless the entry was marked in
  -- sync with that very value already. After the poll the entry is in sync with the value.
  pub regmqtt_poll-reg_set_raw :
      (c : Libc) (publish : Publish W) (prefix : Text) (t : RegTable) (r : EntryRef) (i raw : ℕ)
      (s : Session W)
      → ((topic payload : Text) (w : W) → (publish topic payload true w).0 ≡ true)
      → AllPlain t.entries
      → length t.entries ≤ max_entries
      → IsSession s
      → get_elem? t.entries i ≡ some r.entry
      → raw < 2 ^ 32
      → (reg_set_raw (some t) r raw s.device).0 ≡ reg_ok
      → let written : Session W = record s { device = (reg_set_raw (some t) r raw s.device).1 } in
        let s' = (regmqtt_poll c publish t prefix written).1 in
        let ms = stale_messages c prefix s.synced s.shadow written.device.mem t.entries 0 in
        (s'.client ≡ deliver publish ms s.client)
        × (((is_marked s.synced i ≡ true) × (get_or s.shadow i 0 ≡ stored r.entry.type raw))
            ⊎ IsOneOf (message_of c prefix r.entry (stored r.entry.type raw)) ms)
        × (is_marked s'.synced i ≡ true)
        × (get_or s'.shadow i 0 ≡ stored r.entry.type raw)
  regmqtt_poll-reg_set_raw c publish prefix t r i raw s accepted plain small ok at h fine =
      let d' = (reg_set_raw (some t) r raw s.device).1 in
      let written : Session W = record s { device = d' } in
      let s' = (regmqtt_poll c publish t prefix written).1 in
      let (_, client, all, same, _) =
        regmqtt_poll_converges c publish prefix accepted t written plain
          (record { shadows = ok.shadows; words = ok.words }) small in
      let held =
        reg_set_raw_stores (some t) r raw s.device (r.entry.ptr + size_of r.entry.type) h
          (inr (omega arith)) fine in
      let index : 0 + i ≡ i = omega arith in
      let (synced, shadow) =
        subst (λ (n : ℕ). IsCurrent s' r.entry n) index
          (AllCurrent-at s' t.entries r.entry i 0 all at) in
      let ms = stale_messages c prefix s.synced s.shadow d'.mem t.entries 0 in
      let Due : List (Text × Text) → ℕ → ℕ → Type 0 = λ ms n v.
        ((is_marked s.synced n ≡ true) × (get_or s.shadow n 0 ≡ v))
        ⊎ IsOneOf (message_of c prefix r.entry v) ms in
      let due = subst (Due ms i) held.0 (
        subst (λ (n : ℕ). Due ms n (load_raw r.entry d'.mem)) index
          (stale_messages-at c prefix s.synced s.shadow d'.mem t.entries r.entry i 0 at)) in
      (client, due, synced, shadow ∙ ap (λ (d : Device). load_raw r.entry d.mem) same ∙ held.0)
