-- ===== src/MqttDemo/Examples.antt =====
-- A run of example_mqtt_desktop.c.
use regtable.Prelude.{ℕ, ◌≡◌, ◌≢◌, ap, refl, arith, codes, get_or}
use regtable.Prelude.{none, some, [], ◌∷◌, List, replicate}
use regtable.Core.Types.{reg_ok, Device}
use regtable.Core.Names.{reg_type_str}
use regtable.Core.Text.{decimal}
use regtable.Core.Text.Examples.{libc}
use regtable.Core.Format.{Build, format_x}
use regtable.Core.Json.{quoted}
use regtable.Modbus.Pdu.Replies.{Yields}
use regtable.Mqtt.Poll.{Session}
use regtable.Mqtt.Meta.Texts.{facts_text, float_text, limits_text, identity_text}
use regtable.Core.Float.{isnan, isinf}
use regtable.Mqtt.Init.{RegMqtt, strpbrk, regmqtt_set_identity}
use regtable.Mqtt.Init.Accept.{IsPublishable}
use regtable.Mqtt.Init.Laws.{fresh_adapter, publishable_accepted, regmqtt_set_identity_lem}
use regtable.MqttDemo.{Layout, Broker, registry, who, prefix, fgets, main}
use regtable.MqttDemo.Current.{IsCaughtUp, demo_table, main-IsCaughtUp}

abbrev layout : Layout
layout = record { temp = 0; interval = 4; led = 6; gain = 8; registry = 1000 }

-- "Aug 22 2026 10:20:30"
abbrev build : Build
build = record { built = codes "Aug 22 2026 10:20:30"; compiler = none }

-- A static variable is zero.
abbrev memory : RegMqtt
memory = record {
  table = none;
  prefix = [];
  identity = none;
  shadow = replicate 64 0;
  synced = 0 ∷ 0 ∷ [];
}

-- 23.4, 1000, off, 1.0
abbrev device : Device
device = record {
  mem = λ a. get_or (0x33 ∷ 0x33 ∷ 0xbb ∷ 0x41 ∷ 0xe8 ∷ 3 ∷ 0 ∷ 0 ∷ 0 ∷ 0 ∷ 0x80 ∷ 0x3f ∷ []) a 0;
  dirty = [];
}

abbrev typed : List ℕ
typed = codes "demo/gain/set 1.5\nhello\nquit\n"

two_lines : fgets 127 (codes "a\nb") ≡ (codes "a\n", codes "b")
unfolding fgets codes
two_lines = refl

differ : {xs ys : List ℕ} (x y : ℕ) → x ≢ y → (x ∷ xs) ≢ (y ∷ ys)
differ x y h p = h (ap (λ s. get_or s 0 0) p)

publishable : IsPublishable libc (demo_table layout) prefix
unfolding registry facts_text limits_text float_text isnan isinf quoted reg_type_str decimal codes
    strpbrk
publishable = record {
  some_prefix = ground arith;
  tame = refl;
  room = ground arith;
  entries = (
    record {
      named = record {
        some_byte = ground arith;
        short = ground arith;
        level = refl;
        plain = ground arith;
      };
      topic = ground arith;
      meta = ground arith;
    },
    (
      record {
        named = record {
          some_byte = ground arith;
          short = ground arith;
          level = refl;
          plain = ground arith;
        };
        topic = ground arith;
        meta = ground arith;
      },
      (
        record {
          named = record {
            some_byte = ground arith;
            short = ground arith;
            level = refl;
            plain = ground arith;
          };
          topic = ground arith;
          meta = ground arith;
        },
        (
          record {
            named = record {
              some_byte = ground arith;
              short = ground arith;
              level = refl;
              plain = ground arith;
            };
            topic = ground arith;
            meta = ground arith;
          },
          tt,
        ),
      ),
    ),
  );
  distinct = (
    (
      differ 105 116 (ground arith),
      (differ 108 116 (ground arith), (differ 103 116 (ground arith), tt)),
    ),
    (
      (differ 108 105 (ground arith), (differ 103 105 (ground arith), tt)),
      ((differ 103 108 (ground arith), tt), (tt, tt)),
    ),
  );
}

identified :
    regmqtt_set_identity build (some (fresh_adapter memory (demo_table layout) prefix)) (some who)
    ≡ (
      reg_ok,
      some (record (fresh_adapter memory (demo_table layout) prefix) { identity = some who }),
    )
unfolding registry identity_text quoted format_x decimal codes
identified =
    regmqtt_set_identity_lem build (fresh_adapter memory (demo_table layout) prefix)
      (demo_table layout) (some who) refl

main-IsCaughtUp_example :
    Yields
      (λ (o : ℕ × Session Broker). (o.0 ≡ 0) × IsCaughtUp libc (demo_table layout) o.1)
      (main libc build (λ w. w) layout memory 100 typed device)
unfolding codes
main-IsCaughtUp_example =
    main-IsCaughtUp libc build (λ w. w) layout memory
      (fresh_adapter memory (demo_table layout) prefix)
      (record (fresh_adapter memory (demo_table layout) prefix) { identity = some who }) 100 typed
      device refl (publishable_accepted libc memory (demo_table layout) prefix publishable)
      identified (omega arith)
