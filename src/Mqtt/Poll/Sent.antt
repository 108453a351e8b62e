-- ===== src/Mqtt/Poll/Sent.antt =====
-- What the loop of `regmqtt_poll` sends, message by message.
use regtable.Prelude.{ℕ, ◌+◌, ◌%◌, ◌^◌, ◌<◌, ◌≤◌, ◌≡◌, ◌∙◌, ap, refl, arith, inl, inr, sym}
use regtable.Prelude.{Bool, true, false, ◌&&◌, none, List, [], ◌∷◌, ◌==◌}
use regtable.Prelude.{length, get_or, Bool-cases}
use std.Path.{subst}
use regtable.Core.Types.{Text, RegEntry}
use regtable.Core.Memory.{load_raw}
use regtable.Core.Dirty.{max_entries}
use regtable.Core.Text.{Libc, reg_raw_str}
use regtable.Core.Raw.Effect.{AllPlain, plain_read}
use regtable.Mqtt.Poll.Marks.{is_marked, is_synced-marked}
use regtable.Mqtt.Poll.{Session, is_synced, Publish, poll_one, poll_rest}
use regtable.Mqtt.Poll.Messages.{topic_of, stale_messages, deliver, stale_messages_congr}
use regtable.Mqtt.Poll.State.{IsSession, published, published-Touched}

-- The entry is marked in sync with the value that it has.
abbrev pub is_current {ℓ} : {W : Type ℓ} → Session W → RegEntry → ℕ → Bool
is_current s e i = is_marked s.synced i && load_raw e s.device.mem == get_or s.shadow i 0

-- What the code tests.
is_synced-current {ℓ} :
    {W : Type ℓ} (s : Session W) (e : RegEntry) (i : ℕ)
    → (is_synced s.synced i && load_raw e s.device.mem == get_or s.shadow i 0) ≡ is_current s e i
is_synced-current s e i =
    ap (λ m. m && load_raw e s.device.mem == get_or s.shadow i 0) (is_synced-marked s.synced i)

module _ {ℓ} {W : Type ℓ} (c : Libc) (publish : Publish W) (prefix : Text) where
  pub poll_one_current :
      (e : RegEntry) (i sent : ℕ) (s : Session W)
      → e.on_read ≡ none
      → is_current s e i ≡ true
      → poll_one c publish prefix e i sent s ≡ (sent, s)
  unfolding poll_one
  poll_one_current e i sent s plain current =
      rw (plain_read e s.device plain, is_synced-current s e i ∙ current) refl

  pub poll_rest_nil :
      (i sent : ℕ) (s : Session W) → poll_rest c publish prefix [] i sent s ≡ (sent, s)
  unfolding poll_rest
  poll_rest_nil i sent s = refl

  pub poll_rest_cons :
      (e : RegEntry) (es : List RegEntry) (i sent : ℕ) (s : Session W)
      → let (sent', s') = poll_one c publish prefix e i sent s in
        poll_rest c publish prefix (e ∷ es) i sent s
        ≡ poll_rest c publish prefix es (i + 1) sent' s'
  unfolding poll_rest
  poll_rest_cons e es i sent s = refl

  -- Once it is told of the entry's value, the client keeps this.
  abbrev pub told : RegEntry → Session W → W
  told e s =
      (publish (topic_of prefix e) (reg_raw_str c e (load_raw e s.device.mem) 32).1 true s.client).1

  module _
      (accepted : (topic payload : Text) (w : W) → (publish topic payload true w).0 ≡ true) where
    pub poll_one_stale :
        (e : RegEntry) (i sent : ℕ) (s : Session W)
        → e.on_read ≡ none
        → is_current s e i ≡ false
        → poll_one c publish prefix e i sent s
          ≡ ((sent + 1) % 2 ^ 16, published s i (load_raw e s.device.mem) (told e s))
    unfolding poll_one
    poll_one_stale e i sent s plain stale =
        rw
          (
            plain_read e s.device plain,
            is_synced-current s e i ∙ stale,
            accepted (topic_of prefix e) (reg_raw_str c e (load_raw e s.device.mem) 32).1 s.client,
          )
          refl

    -- The messages of a session, for the entries from index `i` on.
    abbrev pub due : Session W → List RegEntry → ℕ → List (Text × Text)
    due s es i = stale_messages c prefix s.synced s.shadow s.device.mem es i

    due-published :
        (s : Session W) (es : List RegEntry) (i raw : ℕ) (w : W)
        → IsSession s
        → i < max_entries
        → due (published s i raw w) es (i + 1) ≡ due s es (i + 1)
    due-published s es i raw w ok small =
        let s' = published s i raw w in
        stale_messages_congr c prefix s'.synced s.synced s'.shadow s.shadow s.device.mem es (i + 1)
          (λ j h. (published-Touched s i raw w ok small).others j (inr h))

    abbrev Sends : ℕ → Session W → ℕ × Session W → List (Text × Text) → Type ℓ
    Sends sent s o ms = (o.0 ≡ sent + length ms) × (o.1.client ≡ deliver publish ms s.client)

    -- The loop hands over the messages of the entries that are not in sync, and counts them.
    pub poll_rest-deliver :
        (es : List RegEntry) (i sent : ℕ) (s : Session W)
        → AllPlain es
        → IsSession s
        → i + length es ≤ max_entries
        → sent + length es < 2 ^ 16
        → let (n, s') = poll_rest c publish prefix es i sent s in
          (n ≡ sent + length (due s es i)) × (s'.client ≡ deliver publish (due s es i) s.client)
    unfolding poll_rest
    poll_rest-deliver [] i sent s plain ok room few = (omega arith, refl)
    poll_rest-deliver (e ∷ es) i sent s plain ok room few =
        let after : ℕ × Session W → ℕ × Session W =
          λ o. poll_rest c publish prefix es (i + 1) o.0 o.1 in
        elim (Bool-cases (is_current s e i)) [
          | inl current ↦
              subst (λ o. Sends sent s (after o) (due s (e ∷ es) i))
                (sym (poll_one_current e i sent s plain.0 current))
                (rw current
                  (poll_rest-deliver es (i + 1) sent s plain.1 ok (omega arith) (omega arith)))
          | inr stale ↦
              let s1 = published s i (load_raw e s.device.mem) (told e s) in
              let touched =
                published-Touched s i (load_raw e s.device.mem) (told e s) ok (omega arith) in
              let (count, client) =
                poll_rest-deliver es (i + 1) (sent + 1) s1 plain.1 touched.ok (omega arith)
                  (omega arith) in
              let same =
                due-published s es i (load_raw e s.device.mem) (told e s) ok (omega arith) in
              let small : sent + 1 ≡ (sent + 1) % 2 ^ 16 = omega arith in
              subst (λ o. Sends sent s (after o) (due s (e ∷ es) i))
                (sym (poll_one_stale e i sent s plain.0 stale))
                (subst (λ n. Sends sent s (after (n, s1)) (due s (e ∷ es) i)) small
                  (rw stale (
                    count ∙ ap (λ ms. sent + 1 + length ms) same ∙ omega arith,
                    client ∙ ap (λ ms. deliver publish ms (told e s)) same,
                  )))
        ]
