-- ===== src/MqttDemo/Current.antt =====
-- How `main` of example_mqtt_desktop.c ends, and what it has published then.
use regtable.Prelude.{ℕ, ◌+◌, zero, suc, ◌<◌, ◌≤◌, ◌≡◌, ◌⊎◌, ◌∙◌, inl, inr, refl, sym, ap, arith}
use regtable.Prelude.{true, ◌==◌, codes, length, if_cases}
use regtable.Prelude.{Option, some, List, [], ◌∷◌, replicate, get_elem?, get_or}
use std.Path.{subst}
use regtable.Core.Types.{RegResult, reg_ok, Device, RegEntry, RegTable}
use regtable.Core.Dirty.{max_entries, dirty_words}
use regtable.Core.Table.{str_eq, reg_table_init}
use regtable.Core.Raw.Effect.{AllPlain}
use regtable.Core.Text.{Libc, reg_raw_str}
use regtable.Core.Format.{Build}
use regtable.Modbus.Pdu.Replies.{Yields, yielded, Yields-test}
use regtable.Mqtt.Poll.Marks.{is_marked, none_marked}
use regtable.Mqtt.Poll.{Session, regmqtt_poll, regmqtt_publish_all}
use regtable.Mqtt.Poll.Messages.{topic_of}
use regtable.MqttDemo.Topics.{registry_apart}
use regtable.MqttDemo.Heard.{IsHonest, AllHeard, last_heard, poll_rest-IsHonest, current-AllHeard}
use regtable.Mqtt.Poll.State.{IsSession, AllCurrent}
use regtable.Mqtt.Poll.Converge.{poll_rest-AllCurrent}
use regtable.Mqtt.Init.{RegMqtt, regmqtt_init, regmqtt_set_identity}
use regtable.Mqtt.Init.Laws.{fresh_adapter, init_accepted, identity_accepted}
use regtable.Mqtt.Announce.{regmqtt_announce}
use regtable.MqttDemo.{
  Layout, registry, Broker, print_publish, who, prefix, fgets, line_room, line_text, no_bytes, turn,
  loop, run_bound, identified, main,
}

fgets_le : (n : ℕ) (input : List ℕ) → length (fgets n input).1 ≤ length input
unfolding fgets
fgets_le n [] = omega arith
fgets_le zero (b ∷ input) = omega arith
fgets_le (suc n) (b ∷ input) =
    if_cases (λ (o : List ℕ × List ℕ). length o.1 ≤ suc (length input)) (b == b'\n') _ _
      (λ end. omega arith) (λ other. omega (arith, fgets_le n input))

-- A call with room for a byte or more takes one, but at the end of the input.
fgets_shorter :
    (n : ℕ) (input : List ℕ)
    → (no_bytes (fgets (suc n) input).0 ≡ true) ⊎ (length (fgets (suc n) input).1 < length input)
unfolding fgets
fgets_shorter n [] = inl refl
fgets_shorter n (b ∷ input) = inr (
    if_cases (λ (o : List ℕ × List ℕ). length o.1 < suc (length input)) (b == b'\n') _ _
      (λ end. omega arith) (λ other. omega (arith, fgets_le n input)))

-- The arrays have their lengths, every entry is in sync, and its value was heard last.
abbrev pub IsCaughtUp : Libc → RegTable → Session Broker → Type 0
IsCaughtUp c t s = IsSession s × AllCurrent s t.entries 0 × AllHeard c s t.entries

module _ (c : Libc) (b : Build) (plus_third : ℕ → ℕ) (l : Layout) (t : RegTable)
    (plain : AllPlain t.entries) (small : length t.entries ≤ max_entries)
    (apart : (j k : ℕ) (x y : RegEntry)
      → get_elem? t.entries j ≡ some x
      → get_elem? t.entries k ≡ some y
      → topic_of prefix x ≡ topic_of prefix y
      → j ≡ k) where
  -- What the loop keeps.
  abbrev Kept : Session Broker → Type 0
  Kept s = IsCaughtUp c t s × IsHonest c t.entries apart s

  poll-IsCaughtUp :
      (s : Session Broker)
      → IsSession s
      → IsHonest c t.entries apart s
      → Kept (regmqtt_poll c print_publish t prefix s).1
  unfolding regmqtt_poll
  poll-IsCaughtUp s ok honest =
      let (touched, all) =
        poll_rest-AllCurrent c print_publish prefix (λ topic payload w. refl) t.entries 0 0 s plain
          ok (omega (arith, small)) in
      let first : (k : ℕ) (e : RegEntry)
          → get_elem? t.entries k ≡ some e
          → get_elem? t.entries (0 + k) ≡ some e =
        λ k e is.
          let same : k ≡ 0 + k = omega arith in
          subst (λ n. get_elem? t.entries n ≡ some e) same is in
      let heard =
        poll_rest-IsHonest c t.entries apart t.entries 0 0 s plain first (omega (arith, small)) ok
          honest in
      let s' = (regmqtt_poll c print_publish t prefix s).1 in
      let from_zero : (k : ℕ) (e : RegEntry)
          → get_elem? t.entries k ≡ some e
          → is_marked s'.synced (0 + k) ≡ true
          → last_heard (topic_of prefix e) s'.client
            ≡ some (reg_raw_str c e (get_or s'.shadow (0 + k) 0) 32).1 =
        λ k e is marked. heard (0 + k) e (first k e is) marked in
      ((touched.ok, all, current-AllHeard c s' t.entries 0 all from_zero), heard)

  publish_all-IsCaughtUp :
      (s : Session Broker) → IsSession s → Kept (regmqtt_publish_all c print_publish t prefix s).1
  unfolding regmqtt_publish_all
  publish_all-IsCaughtUp s ok =
      poll-IsCaughtUp (record s { synced = replicate dirty_words 0 })
        (record { shadows = ok.shadows; words = refl })
        (λ j e at marked. absurd (cc (none_marked j, marked)))

  turn-IsCaughtUp :
      (line : List ℕ) (s : Session Broker) → Kept s → Kept (turn c b plus_third l t line s)
  unfolding turn
  turn-IsCaughtUp line s ((ok, _, _), honest) =
      poll-IsCaughtUp _ (record { shadows = ok.shadows; words = ok.words }) honest

  loop-IsCaughtUp :
      (fuel : ℕ) (input : List ℕ) (s : Session Broker)
      → length input < fuel
      → Kept s
      → Yields Kept (loop c b plus_third l t fuel input s)
  unfolding loop
  loop-IsCaughtUp zero input s enough now = absurd (omega arith)
  loop-IsCaughtUp (suc fuel) input s enough now =
      let (read, input') = fgets line_room input in
      let line = line_text read in
      Yields-test Kept (no_bytes read) _ _ (λ end. yielded Kept s now)
        λ more.
          Yields-test Kept (str_eq line (codes "quit")) _ _ (λ quit. yielded Kept s now)
            λ other.
              let shorter : length input' < length input = elim (fgets_shorter 126 input) [
                | inl end ↦ absurd (cc (more, end))
                | inr less ↦ less
              ] in
              loop-IsCaughtUp fuel input' (turn c b plus_third l t line s) (omega (arith, shorter))
                (turn-IsCaughtUp line s now)

-- The handle that `reg_table_init` binds.
abbrev pub demo_table : Layout → RegTable
demo_table l = record { base = l.registry; entries = registry l; count = 4 }

module _ (c : Libc) (b : Build) (plus_third : ℕ → ℕ) (l : Layout) (memory : RegMqtt) where
  abbrev t : RegTable
  t = demo_table l

  run_bound-IsCaughtUp :
      (mq : RegMqtt) (fuel : ℕ) (input : List ℕ) (d : Device)
      → length memory.shadow ≡ max_entries
      → mq ≡ record (fresh_adapter memory t prefix) { identity = some who }
      → length input < fuel
      → Yields
          (λ (o : ℕ × Session Broker). (o.0 ≡ 0) × IsCaughtUp c t o.1)
          (run_bound c b plus_third l mq fuel input d mq.table)
  unfolding run_bound registry
  run_bound-IsCaughtUp mq fuel input d room is enough =
      let set_up = record (fresh_adapter memory t prefix) { identity = some who } in
      let heard = (regmqtt_announce c b print_publish (some set_up) []).1 in
      let s : Session Broker = record {
        shadow = memory.shadow;
        synced = replicate dirty_words 0;
        device = d;
        client = heard;
      } in
      let out =
        publish_all-IsCaughtUp c b plus_third l t (refl, (refl, (refl, (refl, tt)))) (omega arith)
          (registry_apart l) s (record { shadows = room; words = refl }) in
      let (s', ends, caught) =
        loop-IsCaughtUp c b plus_third l t (refl, (refl, (refl, (refl, tt)))) (omega arith)
          (registry_apart l) fuel input (regmqtt_publish_all c print_publish t prefix s).1 enough
          out in
      subst
        (λ (m : RegMqtt).
          Yields (λ (o : ℕ × Session Broker). (o.0 ≡ 0) × IsCaughtUp c t o.1)
            (run_bound c b plus_third l m fuel input d m.table))
        (sym is) ((0, s'), rw ends, (refl, caught.0))

  -- If the set-up is accepted and the array of values has its length, the program ends with status
  -- 0, whatever is typed, within one turn more than there are bytes of input; at its end every
  -- register is in sync, and the last message that was printed on its topic carries the value that
  -- it has, as `reg_raw_str` prints it.
  pub main-IsCaughtUp :
      (mq mq' : RegMqtt) (fuel : ℕ) (input : List ℕ) (d : Device)
      → length memory.shadow ≡ max_entries
      → regmqtt_init c (some memory) (some t) (some prefix) true ≡ (reg_ok, some mq)
      → regmqtt_set_identity b (some mq) (some who) ≡ (reg_ok, some mq')
      → length input < fuel
      → Yields
          (λ (o : ℕ × Session Broker). (o.0 ≡ 0) × IsCaughtUp c t o.1)
          (main c b plus_third l memory fuel input d)
  unfolding main identified reg_table_init registry
  main-IsCaughtUp mq mq' fuel input d room init identity enough =
      let (accepted, is) = init_accepted c memory mq t prefix init in
      let at : mq.table ≡ some t = ap (λ (m : RegMqtt). m.table) is in
      let (fits, is') = identity_accepted b mq mq' t (some who) at identity in
      let all : mq' ≡ record (fresh_adapter memory t prefix) { identity = some who } =
        is' ∙ ap (λ (m : RegMqtt). record m { identity = some who }) is in
      let d' : Device = record d { dirty = replicate dirty_words 0 } in
      subst
        (λ (m : Option RegMqtt).
          Yields (λ (o : ℕ × Session Broker). (o.0 ≡ 0) × IsCaughtUp c t o.1)
            (identified c b plus_third l fuel input d' (regmqtt_set_identity b m (some who))))
        (sym (ap (λ o. o.1) init))
        (subst
          (λ (r : RegResult × Option RegMqtt).
            Yields (λ (o : ℕ × Session Broker). (o.0 ≡ 0) × IsCaughtUp c t o.1)
              (identified c b plus_third l fuel input d' r))
          (sym identity) (run_bound-IsCaughtUp mq' fuel input d' room all enough))
