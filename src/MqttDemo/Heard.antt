-- ===== src/MqttDemo/Heard.antt =====
-- What the broker of example_mqtt_desktop.c has heard last on a topic.
use regtable.Prelude.{ℕ, suc, ◌+◌, ◌<◌, ◌≤◌, ◌≡◌, ◌∙◌, inl, inr, refl, sym, ap, arith}
use regtable.Prelude.{true, false, if◌then◌else◌, ◌==◌, ◌++◌, length, get_or, Bool-cases}
use regtable.Prelude.{Option, none, some, List, [], ◌∷◌, get_elem?, get_or-set_self}
use std.Path.{subst}
use regtable.Core.Types.{Text, RegEntry}
use regtable.Core.Memory.{load_raw}
use regtable.Core.Dirty.{max_entries}
use regtable.Core.Table.{str_eq}
use regtable.Core.Table.Laws.{str_eq_iff}
use regtable.Core.Text.{Libc, reg_raw_str}
use regtable.Core.Raw.Effect.{AllPlain}
use regtable.Mqtt.Poll.Marks.{is_marked}
use regtable.Mqtt.Poll.{Session, poll_one, poll_rest}
use regtable.Mqtt.Poll.Messages.{topic_of}
use regtable.Mqtt.Poll.Sent.{
  is_current, told, poll_one_current, poll_one_stale, poll_rest_nil, poll_rest_cons,
}
use regtable.Mqtt.Poll.State.{IsSession, AllCurrent, published, published-Touched}
use regtable.Mqtt.Poll.Converge.{poll_one-IsCurrent}
use regtable.MqttDemo.{Broker, print_publish, prefix}

abbrev or_before : Option Text → Option Text → Option Text
or_before none before = before
or_before (some payload) before = some payload

-- The last payload on the topic, if there was any. The last message stands at the end.
pub last_heard : Text → Broker → Option Text
unfolding str_eq
last_heard topic [] = none
last_heard topic ((t, payload, retain) ∷ log) =
    or_before (last_heard topic log) (if str_eq t topic then some payload else none)

last_heard-append :
    (topic t payload : Text) (log : Broker)
    → last_heard topic (log ++ ((t, payload, true) ∷ []))
      ≡ (if str_eq t topic then some payload else last_heard topic log)
unfolding last_heard
last_heard-append topic t payload [] = refl
last_heard-append topic t payload ((t', p', r') ∷ log) =
    let first : Option Text = if str_eq t' topic then some p' else none in
    ap (λ o. or_before o first) (last_heard-append topic t payload log)
    ∙ elim (Bool-cases (str_eq t topic)) [ inl same ↦ rw same refl | inr other ↦ rw other refl ]

module _ (c : Libc) (es : List RegEntry)
    (apart : (j k : ℕ) (a b : RegEntry)
      → get_elem? es j ≡ some a
      → get_elem? es k ≡ some b
      → topic_of prefix a ≡ topic_of prefix b
      → j ≡ k) where
  -- What is marked in sync was heard last, with the value that is recorded.
  abbrev pub IsHonest : Session Broker → Type 0
  IsHonest s =
      (j : ℕ) (e : RegEntry)
      → get_elem? es j ≡ some e
      → is_marked s.synced j ≡ true
      → last_heard (topic_of prefix e) s.client ≡ some (reg_raw_str c e (get_or s.shadow j 0) 32).1

  told-IsHonest :
      (e : RegEntry) (i : ℕ) (s : Session Broker)
      → get_elem? es i ≡ some e
      → IsSession s
      → i < max_entries
      → IsHonest s
      → IsHonest (published s i (load_raw e s.device.mem) (told c print_publish prefix e s))
  told-IsHonest e i s at ok small honest j e' at' marked =
      let raw = load_raw e s.device.mem in
      let topic = topic_of prefix e in
      let payload = (reg_raw_str c e raw 32).1 in
      let s' = published s i raw (told c print_publish prefix e s) in
      let heard = last_heard-append (topic_of prefix e') topic payload s.client in
      elim (Bool-cases (j == i)) [
        | inl same ↦
            let here : i ≡ j = ground arith in
            let again : e ≡ e' = cc (at, at', here) in
            let its : get_or s'.shadow i 0 ≡ raw =
              get_or-set_self s.shadow i raw 0 (omega (arith, ok.shadows)) in
            let own : str_eq topic topic ≡ true = (str_eq_iff topic topic).1 refl in
            let now : last_heard topic s'.client
                ≡ some (reg_raw_str c e (get_or s'.shadow i 0) 32).1 =
              last_heard-append topic topic payload s.client
              ∙ ap (λ x. if x then some payload else last_heard topic s.client) own
              ∙ ap (λ v. some (reg_raw_str c e v 32).1) (sym its) in
            subst
              (λ (n : ℕ).
                last_heard (topic_of prefix e') s'.client
                ≡ some (reg_raw_str c e' (get_or s'.shadow n 0) 32).1)
              here
              (subst
                (λ (y : RegEntry).
                  last_heard (topic_of prefix y) s'.client
                  ≡ some (reg_raw_str c y (get_or s'.shadow i 0) 32).1)
                again now)
        | inr elsewhere ↦
            let (mark, value) =
              (published-Touched s i raw (told c print_publish prefix e s) ok small).others j
                (ground arith) in
            let differs : str_eq topic (topic_of prefix e') ≡ false =
              elim (Bool-cases (str_eq topic (topic_of prefix e'))) [
                | inl same ↦
                    let here =
                      apart i j e e' at at' ((str_eq_iff topic (topic_of prefix e')).0 same) in
                    absurd (ground (arith, here))
                | inr no' ↦ no'
              ] in
            heard
            ∙ ap (λ x. if x then some payload else last_heard (topic_of prefix e') s.client) differs
            ∙ honest j e' at' (sym mark ∙ marked)
            ∙ ap (λ v. some (reg_raw_str c e' v 32).1) (sym value)
      ]

  poll_one-IsHonest :
      (e : RegEntry) (i sent : ℕ) (s : Session Broker)
      → e.on_read ≡ none
      → get_elem? es i ≡ some e
      → IsSession s
      → i < max_entries
      → IsHonest s
      → IsHonest (poll_one c print_publish prefix e i sent s).1
  poll_one-IsHonest e i sent s plain at ok small honest = elim (Bool-cases (is_current s e i)) [
    | inl current ↦
        subst (λ (o : ℕ × Session Broker). IsHonest o.1)
          (sym (poll_one_current c print_publish prefix e i sent s plain current)) honest
    | inr stale ↦
        subst (λ (o : ℕ × Session Broker). IsHonest o.1)
          (sym (
            poll_one_stale c print_publish prefix (λ topic payload w. refl) e i sent s plain stale))
          (told-IsHonest e i s at ok small honest)
  ]

  pub poll_rest-IsHonest :
      (rest : List RegEntry) (i sent : ℕ) (s : Session Broker)
      → AllPlain rest
      → ((k : ℕ) (e : RegEntry) → get_elem? rest k ≡ some e → get_elem? es (i + k) ≡ some e)
      → i + length rest ≤ max_entries
      → IsSession s
      → IsHonest s
      → IsHonest (poll_rest c print_publish prefix rest i sent s).1
  poll_rest-IsHonest [] i sent s plain within room ok honest =
      subst (λ (o : ℕ × Session Broker). IsHonest o.1)
        (sym (poll_rest_nil c print_publish prefix i sent s)) honest
  poll_rest-IsHonest (e ∷ rest) i sent s plain within room ok honest =
      let (sent', s') = poll_one c print_publish prefix e i sent s in
      let here : i + 0 ≡ i = omega arith in
      let at : get_elem? es i ≡ some e =
        subst (λ (n : ℕ). get_elem? es n ≡ some e) here (within 0 e refl) in
      let (touched, now) =
        poll_one-IsCurrent c print_publish prefix (λ topic payload w. refl) e i sent s plain.0 ok
          (omega arith) in
      let within' : (k : ℕ) (x : RegEntry)
          → get_elem? rest k ≡ some x
          → get_elem? es (i + 1 + k) ≡ some x =
        λ k x is.
          let there : i + suc k ≡ i + 1 + k = omega arith in
          subst (λ (n : ℕ). get_elem? es n ≡ some x) there (within (suc k) x is) in
      subst (λ (o : ℕ × Session Broker). IsHonest o.1)
        (sym (poll_rest_cons c print_publish prefix e rest i sent s))
        (poll_rest-IsHonest rest (i + 1) sent' s' plain.1 within' (omega arith) touched.ok
          (poll_one-IsHonest e i sent s plain.0 at ok (omega arith) honest))

-- For each of the entries, the last payload on its topic is its value, as `reg_raw_str` prints it.
abbrev pub AllHeard : Libc → Session Broker → List RegEntry → Type 0
AllHeard c s [] = Unit
AllHeard c s (e ∷ es) =
    (last_heard (topic_of prefix e) s.client
      ≡ some (reg_raw_str c e (load_raw e s.device.mem) 32).1)
    × AllHeard c s es

-- What is in sync with its value, and was heard with what is recorded, was heard with its value.
pub current-AllHeard :
    (c : Libc) (s : Session Broker) (rest : List RegEntry) (i : ℕ)
    → AllCurrent s rest i
    → ((k : ℕ) (e : RegEntry)
        → get_elem? rest k ≡ some e
        → is_marked s.synced (i + k) ≡ true
        → last_heard (topic_of prefix e) s.client
          ≡ some (reg_raw_str c e (get_or s.shadow (i + k) 0) 32).1)
    → AllHeard c s rest
current-AllHeard c s [] i all honest = tt
current-AllHeard c s (e ∷ rest) i all honest =
    let here : i ≡ i + 0 = omega arith in
    (
      honest 0 e refl (ap (is_marked s.synced) (sym here) ∙ all.0.0)
          ∙ ap (λ (n : ℕ). some (reg_raw_str c e (get_or s.shadow n 0) 32).1) (sym here)
          ∙ ap (λ v. some (reg_raw_str c e v 32).1) all.0.1,
      current-AllHeard c s rest (i + 1) all.1 (λ k x is marked.
          let there : i + 1 + k ≡ i + suc k = omega arith in
          subst
            (λ (n : ℕ).
              is_marked s.synced n ≡ true
              → last_heard (topic_of prefix x) s.client
                ≡ some (reg_raw_str c x (get_or s.shadow n 0) 32).1)
            (sym there) (honest (suc k) x is) marked),
    )
