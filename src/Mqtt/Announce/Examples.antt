-- ===== src/Mqtt/Announce/Examples.antt =====
-- Setting up and announcing, at the small table of Core/Examples.
use regtable.Prelude.{ℕ, Bool, ◌≡◌, ◌≢◌, ◌⊎◌, ap, refl, arith, codes, true, false, if◌then◌else◌}
use regtable.Prelude.{none, some, List, [], ◌∷◌, replicate, get_or}
use regtable.Core.Types.{Text, reg_ok, reg_err_table, RegIdentity}
use regtable.Core.Names.{reg_type_str}
use regtable.Core.Text.{decimal}
use regtable.Core.Text.Examples.{libc}
use regtable.Core.Examples.{table}
use regtable.Core.Format.{Build, format_x}
use regtable.Core.Json.{quoted}
use regtable.Mqtt.Poll.{Publish}
use regtable.Mqtt.Meta.{empty}
use regtable.Mqtt.Meta.Texts.{facts_text, limits_text, identity_text}
use regtable.Mqtt.Appender.{ap_json_str}
use regtable.Mqtt.Appender.Laws.{Appends, ap_json_str-Appends}
use regtable.Mqtt.Init.{RegMqtt, strpbrk, regmqtt_init, regmqtt_set_identity}
use regtable.Mqtt.Init.Accept.{IsPublishable}
use regtable.Mqtt.Init.Laws.{
  fresh_adapter, regmqtt_init_lem, publishable_accepted, regmqtt_set_identity_lem,
}
use regtable.Mqtt.Announce.{regmqtt_announce}
use regtable.Mqtt.Announce.Laws.{messages, offer_all, regmqtt_announce_lem}

-- "Aug 22 2026 10:20:30"
abbrev build : Build
build = record { built = codes "Aug 22 2026 10:20:30"; compiler = none }

abbrev identity : RegIdentity
identity = record { device = some (codes "uno"); fw = some (codes "1.0"); hash = none; chip = none }

abbrev prefix : Text
prefix = codes "dev"

-- The memory of the adapter, before it is set up.
abbrev memory : RegMqtt
memory = record {
  table = none;
  prefix = [];
  identity = none;
  shadow = replicate 64 0;
  synced = 0 ∷ 0 ∷ [];
}

-- A client that takes every other message, and keeps it.
abbrev fickle : Publish (Bool × List (Text × Text))
fickle topic payload retain (takes, kept) =
    if takes then (true, (false, (topic, payload) ∷ kept)) else (false, (true, kept))

differ : (x y : ℕ) → x ≢ y → (x ∷ []) ≢ (y ∷ [])
differ x y h p = h (ap (λ s. get_or s 0 0) p)

publishable : IsPublishable libc table prefix
unfolding facts_text limits_text quoted reg_type_str decimal codes strpbrk
publishable = record {
  some_prefix = ground arith;
  tame = refl;
  room = ground arith;
  entries = (
    record {
      named = record {
        some_byte = ground arith;
        short = ground arith;
        level = refl;
        plain = ground arith;
      };
      topic = ground arith;
      meta = ground arith;
    },
    (
      record {
        named = record {
          some_byte = ground arith;
          short = ground arith;
          level = refl;
          plain = ground arith;
        };
        topic = ground arith;
        meta = ground arith;
      },
      (
        record {
          named = record {
            some_byte = ground arith;
            short = ground arith;
            level = refl;
            plain = ground arith;
          };
          topic = ground arith;
          meta = ground arith;
        },
        tt,
      ),
    ),
  );
  distinct = (
    (differ 108 116 (ground arith), (differ 99 116 (ground arith), tt)),
    ((differ 99 108 (ground arith), tt), (tt, tt)),
  );
}

regmqtt_init_example :
    (IsPublishable libc table prefix
      × (regmqtt_init libc (some memory) (some table) (some prefix) true
          ≡ (reg_ok, some (fresh_adapter memory table prefix))))
    ⊎ ((¬ IsPublishable libc table prefix)
        × (regmqtt_init libc (some memory) (some table) (some prefix) true
            ≡ (reg_err_table, some memory)))
regmqtt_init_example = regmqtt_init_lem libc memory table prefix

identified :
    regmqtt_set_identity build (some (fresh_adapter memory table prefix)) (some identity)
    ≡ (reg_ok, some (record (fresh_adapter memory table prefix) { identity = some identity }))
unfolding identity_text quoted format_x decimal codes
identified =
    regmqtt_set_identity_lem build (fresh_adapter memory table prefix) table (some identity) refl

regmqtt_announce_example :
    regmqtt_announce libc build fickle
      (some (record (fresh_adapter memory table prefix) { identity = some identity }))
      (true, [])
    ≡ offer_all fickle (messages libc build table prefix (some identity)) (0, (true, []))
regmqtt_announce_example =
    regmqtt_announce_lem fickle libc build memory (fresh_adapter memory table prefix)
      (record (fresh_adapter memory table prefix) { identity = some identity }) table prefix
      (some identity) (true, []) (publishable_accepted libc memory table prefix publishable)
      identified

ap_json_str-Appends_example :
    Appends (empty 8) (ap_json_str (empty 8) (codes "a\"b")) (quoted (codes "a\"b"))
ap_json_str-Appends_example = ap_json_str-Appends (empty 8) (codes "a\"b") (omega arith)
