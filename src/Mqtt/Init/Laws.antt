-- ===== src/Mqtt/Init/Laws.antt =====
-- What `regmqtt_init` and `regmqtt_set_identity` do.
use regtable.Prelude.{◌<◌, ◌≡◌, ◌⊎◌, ◌∙◌, sym, ap, refl, arith, inl, inr}
use regtable.Prelude.{Bool, true, false, ltb, if◌then◌else◌, if_cases, Bool-cases}
use regtable.Prelude.{Option, none, some, length, [], ◌∷◌}
use regtable.Core.Types.{Text, RegResult, reg_ok, reg_err_table, RegTable, RegIdentity}
use regtable.Core.Text.{Libc}
use regtable.Core.Format.{Build}
use regtable.Core.Schema.{reg_table_schema}
use regtable.Mqtt.Meta.{meta_size}
use regtable.Mqtt.Meta.Texts.{identity_text}
use regtable.Mqtt.Meta.Identity.{id_payload_lem}
use regtable.Mqtt.Init.{RegMqtt, accepts, regmqtt_init, identify, kept, regmqtt_set_identity}
use regtable.Mqtt.Init.Accept.{IsPublishable, accepts_iff}

-- An adapter just set up: nothing is in sync, in either word, and there is no identity.
abbrev pub fresh_adapter : RegMqtt → RegTable → Text → RegMqtt
fresh_adapter old t prefix = record {
  table = some t;
  prefix = prefix;
  identity = none;
  shadow = old.shadow;
  synced = 0 ∷ 0 ∷ [];
}

-- `regmqtt_init` binds the adapter, with nothing in sync and no identity and
-- the array of values as it was, if the topics and the
-- payloads of the table are sound, and otherwise returns REG_ERR_TABLE and leaves the adapter.
pub regmqtt_init_lem :
    (c : Libc) (mq : RegMqtt) (t : RegTable) (prefix : Text)
    → (IsPublishable c t prefix
        × (regmqtt_init c (some mq) (some t) (some prefix) true
            ≡ (reg_ok, some (fresh_adapter mq t prefix))))
      ⊎ ((¬ IsPublishable c t prefix)
          × (regmqtt_init c (some mq) (some t) (some prefix) true ≡ (reg_err_table, some mq)))
unfolding regmqtt_init
regmqtt_init_lem c mq t prefix = elim (Bool-cases (accepts c t prefix)) [
  | inl yes' ↦ inl ((accepts_iff c t prefix).0 yes', rw yes' refl)
  | inr no' ↦ inr (λ k. cc ((accepts_iff c t prefix).1 k), rw no' refl)
]

pub init_accepted :
    (c : Libc) (old mq : RegMqtt) (t : RegTable) (prefix : Text)
    → regmqtt_init c (some old) (some t) (some prefix) true ≡ (reg_ok, some mq)
    → IsPublishable c t prefix × (mq ≡ fresh_adapter old t prefix)
unfolding regmqtt_init
init_accepted c old mq t prefix h =
    if_cases
      (λ (o : RegResult × Option RegMqtt).
        o ≡ (reg_ok, some mq) → IsPublishable c t prefix × (mq ≡ fresh_adapter old t prefix))
      (accepts c t prefix) (reg_ok, some (fresh_adapter old t prefix)) (reg_err_table, some old)
      (λ e same. ((accepts_iff c t prefix).0 e, cc (ap (λ o. o.1) same)))
      (λ e same. absurd (cc (ap (λ o. o.0) same))) h

kept_if :
    (x : Bool) (o o' : RegResult × RegMqtt)
    → kept (if x then o else o') ≡ (if x then kept o else kept o')
kept_if true o o' = refl
kept_if false o o' = refl

-- On an adapter that is bound to `t`, an identity is kept if its payload fits; otherwise
-- REG_ERR_TABLE is returned and the adapter is as before.
pub regmqtt_set_identity_lem :
    (b : Build) (mq : RegMqtt) (t : RegTable) (id : Option RegIdentity)
    → mq.table ≡ some t
    → regmqtt_set_identity b (some mq) id ≡ (
        if ltb (length (identity_text b t.count id (reg_table_schema (some t)))) meta_size
        then (reg_ok, some (record mq { identity = id }))
        else (reg_err_table, some mq))
unfolding regmqtt_set_identity identify
regmqtt_set_identity_lem b mq t id bound_to =
    ap (λ o. kept (identify b mq id o)) bound_to
    ∙ ap
        (λ (x : Bool).
          kept (if x then (reg_ok, record mq { identity = id }) else (reg_err_table, mq)))
        (id_payload_lem b t.count id (reg_table_schema (some t))).0
    ∙ kept_if (ltb (length (identity_text b t.count id (reg_table_schema (some t)))) meta_size)
        (reg_ok, record mq { identity = id }) (reg_err_table, mq)

pub identity_accepted :
    (b : Build) (mq mq' : RegMqtt) (t : RegTable) (id : Option RegIdentity)
    → mq.table ≡ some t
    → regmqtt_set_identity b (some mq) id ≡ (reg_ok, some mq')
    → (length (identity_text b t.count id (reg_table_schema (some t))) < meta_size)
      × (mq' ≡ record mq { identity = id })
identity_accepted b mq mq' t id bound_to h =
    if_cases
      (λ (o : RegResult × Option RegMqtt).
        o ≡ (reg_ok, some mq')
        → (length (identity_text b t.count id (reg_table_schema (some t))) < meta_size)
          × (mq' ≡ record mq { identity = id }))
      (ltb (length (identity_text b t.count id (reg_table_schema (some t)))) meta_size)
      (reg_ok, some (record mq { identity = id })) (reg_err_table, some mq)
      (λ e same. (ground arith, cc (ap (λ o. o.1) same)))
      (λ e same. absurd (cc (ap (λ o. o.0) same)))
      (sym (regmqtt_set_identity_lem b mq t id bound_to) ∙ h)

pub publishable_accepted :
    (c : Libc) (old : RegMqtt) (t : RegTable) (prefix : Text)
    → IsPublishable c t prefix
    → regmqtt_init c (some old) (some t) (some prefix) true
      ≡ (reg_ok, some (fresh_adapter old t prefix))
unfolding regmqtt_init
publishable_accepted c old t prefix k = let e = (accepts_iff c t prefix).1 k in rw e refl
