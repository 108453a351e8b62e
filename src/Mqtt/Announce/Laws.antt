-- ===== src/Mqtt/Announce/Laws.antt =====
-- What `regmqtt_announce` sends.
use regtable.Prelude.{ℕ, ◌+◌, ◌-◌, ◌%◌, ◌^◌, ◌<◌, ◌≤◌, ◌≡◌, ◌∙◌, ap, refl, arith}
use regtable.Prelude.{true, false, not, leb, ltb, if◌then◌else◌, if_cases, codes}
use regtable.Prelude.{Option, some, List, [], ◌∷◌, ◌++◌, length, take_all_of, length-append}
use regtable.Core.Types.{Text, reg_ok, RegEntry, RegTable, RegIdentity}
use regtable.Core.Schema.{reg_table_schema}
use regtable.Core.Text.{Libc, format_lu}
use regtable.Core.Text.Digits.{length-decimal}
use regtable.Core.Format.{Build, format_x, length-format_x}
use regtable.Mqtt.Appender.{Appender, ap_printf}
use regtable.Mqtt.Meta.{meta_size, meta_body_size, id_payload}
use regtable.Mqtt.Meta.Texts.{facts_text, desc_text, body_text, identity_text}
use regtable.Mqtt.Meta.Laws.{meta_body_lem}
use regtable.Mqtt.Meta.Identity.{id_payload_lem}
use regtable.Mqtt.Poll.{topic_size, Publish}
use regtable.Mqtt.Init.{RegMqtt, regmqtt_init, regmqtt_set_identity}
use regtable.Mqtt.Init.Accept.{IsEntry, AllEntries, IsPublishable}
use regtable.Mqtt.Init.Laws.{fresh_adapter, init_accepted, identity_accepted}
use regtable.Mqtt.Announce.{
  fits, printed, trailer, meta_payload, offer, announce_table, announce_id, announce_entry,
  announce_entries, announce_all, announce_on, regmqtt_announce,
}

-- The end of each payload: the fingerprint of the table, in eight digits.
abbrev schema_text : ℕ → Text
schema_text fp = codes ",\"schema\":\"" ++ format_x 8 fp ++ codes "\"}"

-- The description as messages: topics and payloads.
pub meta_messages : Libc → Text → ℕ → List RegEntry → ℕ → List (Text × Text)
unfolding body_text
meta_messages c prefix fp [] i = []
meta_messages c prefix fp (e ∷ es) i =
    (prefix ++ codes "/$meta/" ++ e.name, body_text c e (i % 2 ^ 16) ++ schema_text fp)
    ∷ meta_messages c prefix fp es (i + 1)

pub messages : Libc → Build → RegTable → Text → Option RegIdentity → List (Text × Text)
unfolding meta_messages identity_text reg_table_schema
messages c b t prefix id =
    let fp = reg_table_schema (some t) in
    (prefix ++ codes "/$meta/$table", codes "{\"count\":" ++ format_lu t.count ++ schema_text fp)
    ∷ (prefix ++ codes "/$meta/$id", identity_text b t.count id fp)
    ∷ meta_messages c prefix fp t.entries 0

length-trailer : (fp : ℕ) → length (trailer fp) ≡ 21
unfolding codes
length-trailer fp =
    length-append (codes ",\"schema\":\"" ++ format_x 8 fp) (codes "\"}")
    ∙ omega (arith, length-append (codes ",\"schema\":\"") (format_x 8 fp), length-format_x 8 fp)

length-body_text :
    (c : Libc) (e : RegEntry) (index : ℕ)
    → length (facts_text c e index) < meta_body_size
    → length (body_text c e index) < meta_body_size
unfolding body_text
length-body_text c e index h =
    if_cases (λ (t : Text). length t < meta_body_size)
      (ltb (length (facts_text c e index ++ desc_text e.description)) meta_body_size) _ _
      (λ e. ground arith) (λ e. h)

meta_payload_lem :
    (c : Libc) (e : RegEntry) (index fp : ℕ)
    → length (facts_text c e index) < meta_body_size
    → meta_payload c e index fp
      ≡ record { text = body_text c e index ++ trailer fp; size = meta_size; overflow = false }
unfolding meta_payload ap_printf
meta_payload_lem c e index fp h =
    let room : leb meta_size (length (body_text c e index) + length (trailer fp)) ≡ false =
      ground (arith, length-trailer fp, length-body_text c e index h) in
    ap (λ (a : Appender). ap_printf (record a { size = meta_size }) (trailer fp))
      (meta_body_lem c e index h)
    ∙ rw room refl

fits_lem : (s : Text) (size : ℕ) → 1 ≤ length s → length s < size → fits (length s) size ≡ true
unfolding fits
fits_lem s size some_byte short = ground arith

printed_lem : (size : ℕ) (s : Text) → length s < size → printed size s ≡ s
printed_lem size s h = take_all_of s (size - 1) (omega arith)

length-meta_topic :
    (prefix name : Text)
    → length (prefix ++ codes "/$meta/" ++ name) ≡ length prefix + 7 + length name
unfolding codes
length-meta_topic prefix name =
    length-append (prefix ++ codes "/$meta/") name
    ∙ omega (arith, length-append prefix (codes "/$meta/"))

length-table_topic : (prefix : Text) → length (prefix ++ codes "/$meta/$table") ≡ length prefix + 13
unfolding codes
length-table_topic prefix = length-append prefix (codes "/$meta/$table")

length-id_topic : (prefix : Text) → length (prefix ++ codes "/$meta/$id") ≡ length prefix + 10
unfolding codes
length-id_topic prefix = length-append prefix (codes "/$meta/$id")

table_payload : ℕ → ℕ → Text
table_payload count fp = codes "{\"count\":" ++ format_lu count ++ trailer fp

length-table_payload :
    (count fp : ℕ)
    → (1 ≤ length (table_payload count fp)) × (length (table_payload count fp) < meta_size)
unfolding codes table_payload
length-table_payload count fp =
    let first = length-append (codes "{\"count\":" ++ format_lu count) (trailer fp) in
    let start = length-append (codes "{\"count\":") (format_lu count) in
    (
      omega (arith, first, start, length-trailer fp, length-decimal 10 count),
      omega (arith, first, start, length-trailer fp, length-decimal 10 count),
    )

module _ {ℓ} {W : Type ℓ} (publish : Publish W) where
  -- Each of the messages is handed to `publish`, in order, and those accepted are counted.
  pub offer_all : List (Text × Text) → ℕ × W → ℕ × W
  offer_all [] s = s
  offer_all ((topic, payload) ∷ ms) (n, w) =
      let (accepted, w') = publish topic payload true w in
      offer_all ms (if accepted then (n + 1) % 2 ^ 32 else n, w')

  announce_entry_lem :
      (c : Libc) (prefix : Text) (fp : ℕ) (e : RegEntry) (i : ℕ) (s : ℕ × W)
      → IsEntry c (length prefix) i e
      → announce_entry c publish prefix fp e i s
        ≡ offer publish
            (prefix ++ codes "/$meta/" ++ e.name)
            (body_text c e (i % 2 ^ 16) ++ trailer fp)
            s
  unfolding announce_entry
  announce_entry_lem c prefix fp e i s ok =
      let topic = prefix ++ codes "/$meta/" ++ e.name in
      let len = length-meta_topic prefix e.name in
      let short : length topic < topic_size = omega (arith, len, ok.topic) in
      let fit = fits_lem topic topic_size (omega (arith, len)) short in
      ap
        (λ (a : Appender).
          if a.overflow
          then s
          else if not (fits (length topic) topic_size)
          then s
          else offer publish (printed topic_size topic) a.text s)
        (meta_payload_lem c e (i % 2 ^ 16) fp ok.meta)
      ∙ rw fit (
          ap (λ (x : Text). offer publish x (body_text c e (i % 2 ^ 16) ++ trailer fp) s)
            (printed_lem topic_size topic short))

  announce_entries_lem :
      (c : Libc) (prefix : Text) (fp : ℕ) (es : List RegEntry) (i : ℕ) (s : ℕ × W)
      → AllEntries c (length prefix) i es
      → announce_entries c publish prefix fp es i s ≡ offer_all (meta_messages c prefix fp es i) s
  unfolding announce_entries offer_all meta_messages
  announce_entries_lem c prefix fp [] i s all = refl
  announce_entries_lem c prefix fp (e ∷ es) i s all =
      announce_entries_lem c prefix fp es (i + 1) _ all.1
      ∙ ap (offer_all (meta_messages c prefix fp es (i + 1)))
          (announce_entry_lem c prefix fp e i s all.0)

  announce_table_lem :
      (t : RegTable) (prefix : Text) (fp : ℕ) (s : ℕ × W)
      → length prefix + 14 ≤ topic_size
      → announce_table publish t prefix fp s
        ≡ offer publish (prefix ++ codes "/$meta/$table") (table_payload t.count fp) s
  unfolding announce_table table_payload
  announce_table_lem t prefix fp s room =
      let topic = prefix ++ codes "/$meta/$table" in
      let payload = codes "{\"count\":" ++ format_lu t.count ++ trailer fp in
      let len = length-table_topic prefix in
      let (some_byte, short) = length-table_payload t.count fp in
      let fit = fits_lem topic topic_size (omega (arith, len)) (omega (arith, len, room)) in
      let fit' = fits_lem payload meta_size some_byte short in
      let whole = printed_lem topic_size topic (omega (arith, len, room)) in
      let whole' = printed_lem meta_size payload short in
      rw (fit, fit') λ i. offer publish (whole i) (whole' i) s

  announce_id_lem :
      (b : Build) (t : RegTable) (prefix : Text) (id : Option RegIdentity) (fp : ℕ) (s : ℕ × W)
      → length prefix + 14 ≤ topic_size
      → length (identity_text b t.count id fp) < meta_size
      → announce_id publish b t prefix id fp s
        ≡ offer publish (prefix ++ codes "/$meta/$id") (identity_text b t.count id fp) s
  unfolding announce_id
  announce_id_lem b t prefix id fp s room fits_id =
      let topic = prefix ++ codes "/$meta/$id" in
      let len = length-id_topic prefix in
      let (accepted, payload) = id_payload_lem b t.count id fp in
      let fit = fits_lem topic topic_size (omega (arith, len)) (omega (arith, len, room)) in
      let accepts_it : (id_payload b t.count id fp).0 ≡ true = ground (arith, accepted) in
      let whole = printed_lem topic_size topic (omega (arith, len, room)) in
      let text = payload accepts_it in rw (fit, accepts_it) λ i. offer publish (whole i) (text i) s

  -- An adapter that is bound to `t`, whose topics and payloads are sound, hands over the messages
  -- that describe the table, in order and none of them cut off.
  announce_all_lem :
      (c : Libc) (b : Build) (mq : RegMqtt) (t : RegTable) (w : W)
      → IsPublishable c t mq.prefix
      → length (identity_text b t.count mq.identity (reg_table_schema (some t))) < meta_size
      → announce_all c b publish mq t w ≡ offer_all (messages c b t mq.prefix mq.identity) (0, w)
  unfolding announce_all messages offer_all table_payload
  announce_all_lem c b mq t w ok fits_id =
      let fp = reg_table_schema (some t) in
      announce_entries_lem c mq.prefix fp t.entries 0 _ ok.entries
      ∙ ap (offer_all (meta_messages c mq.prefix fp t.entries 0)) (
          announce_id_lem b t mq.prefix mq.identity fp _ ok.room fits_id
          ∙ ap
              (offer publish (mq.prefix ++ codes "/$meta/$id")
                (identity_text b t.count mq.identity fp))
              (announce_table_lem t mq.prefix fp (0, w) ok.room))

  -- With the adapter as `regmqtt_init` and `regmqtt_set_identity` accepted it, `regmqtt_announce`
  -- hands to `publish`, to be retained, the descriptor of the table, the identity and one message
  -- for each entry, in order and nothing else, with whole topics and payloads (a description is
  -- left out where it does not fit), and returns how many were accepted, modulo 2^32.
  pub regmqtt_announce_lem :
      (c : Libc) (b : Build) (old mq mq' : RegMqtt) (t : RegTable) (prefix : Text)
      (id : Option RegIdentity) (w : W)
      → regmqtt_init c (some old) (some t) (some prefix) true ≡ (reg_ok, some mq)
      → regmqtt_set_identity b (some mq) id ≡ (reg_ok, some mq')
      → regmqtt_announce c b publish (some mq') w ≡ offer_all (messages c b t prefix id) (0, w)
  unfolding regmqtt_announce announce_on
  regmqtt_announce_lem c b old mq mq' t prefix id w init identity =
      let (ok, same) = init_accepted c old mq t prefix init in
      let (fits_id, same') =
        identity_accepted b mq mq' t id (ap (λ (m : RegMqtt). m.table) same) identity in
      let all : mq' ≡ record (fresh_adapter old t prefix) { identity = id } =
        same' ∙ ap (λ (m : RegMqtt). record m { identity = id }) same in
      ap (λ (m : RegMqtt). announce_on c b publish m w m.table) all
      ∙ announce_all_lem c b (record (fresh_adapter old t prefix) { identity = id }) t w ok fits_id
