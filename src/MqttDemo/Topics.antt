-- ===== src/MqttDemo/Topics.antt =====
-- The topics of the registry of example_mqtt_desktop.c.
use regtable.Prelude.{ℕ, zero, suc, ◌≡◌, ◌∙◌, refl, sym, ap, ◌==◌, if◌then◌else◌, codes}
use regtable.Prelude.{some, get_elem?, get_or}
use std.Path.{subst}
use regtable.Core.Types.{RegEntry}
use regtable.Mqtt.Poll.Messages.{topic_of}
use regtable.MqttDemo.{Layout, temp_entry, interval_entry, led_entry, gain_entry, registry, prefix}

-- The first byte of a name tells the entries from each other, and so do their topics.
place : ℕ → ℕ
place x = if x == b't' then 0 else if x == b'i' then 1 else if x == b'l' then 2 else 3

place-topic_of :
    (l : Layout) (j : ℕ) (e : RegEntry)
    → get_elem? (registry l) j ≡ some e
    → place (get_or (topic_of prefix e) 5 0) ≡ j
unfolding registry codes place
place-topic_of l zero e is =
    let at : temp_entry l ≡ e = cc is in
    subst (λ (x : RegEntry). place (get_or (topic_of prefix x) 5 0) ≡ 0) at refl
place-topic_of l (suc zero) e is =
    let at : interval_entry l ≡ e = cc is in
    subst (λ (x : RegEntry). place (get_or (topic_of prefix x) 5 0) ≡ 1) at refl
place-topic_of l (suc (suc zero)) e is =
    let at : led_entry l ≡ e = cc is in
    subst (λ (x : RegEntry). place (get_or (topic_of prefix x) 5 0) ≡ 2) at refl
place-topic_of l (suc (suc (suc zero))) e is =
    let at : gain_entry l ≡ e = cc is in
    subst (λ (x : RegEntry). place (get_or (topic_of prefix x) 5 0) ≡ 3) at refl
place-topic_of l (suc (suc (suc (suc j)))) e is = cc is

pub registry_apart :
    (l : Layout) (j k : ℕ) (x y : RegEntry)
    → get_elem? (registry l) j ≡ some x
    → get_elem? (registry l) k ≡ some y
    → topic_of prefix x ≡ topic_of prefix y
    → j ≡ k
registry_apart l j k x y at at' same =
    sym (place-topic_of l j x at) ∙ ap (λ s. place (get_or s 5 0)) same ∙ place-topic_of l k y at'
