-- ===== src/Mqtt/Meta/Identity.antt =====
-- What `id_payload` appends, and when it fits.
use regtable.Prelude.{ℕ, ◌≡◌, arith}
use regtable.Prelude.{true, ltb, codes}
use regtable.Prelude.{Option, none, some, ◌++◌, length, ◌>>=◌}
use regtable.Core.Types.{Text, RegIdentity}
use regtable.Core.Text.{format_lu}
use regtable.Core.Format.{Build, regtable_version, format_x}
use regtable.Mqtt.Appender.{Appender, ap_puts, ap_putc}
use regtable.Mqtt.Appender.Laws.{
  IsAppender, Appends, nothing-Appends, thus, ap_putc-Appends, ap_puts-Appends, ap_printf-Appends,
}
use regtable.Mqtt.Meta.{meta_size, empty, id_field, id_appended, id_payload}
use regtable.Mqtt.Meta.Texts.{id_text, identity_text}
use regtable.Mqtt.Meta.Laws.{field-Appends, from_empty}

id_field-Appends :
    (a : Appender) (key : Text) (value : Option Text)
    → IsAppender a
    → Appends a (id_field a key value) (id_text key value)
unfolding id_field id_text
id_field-Appends a key none h = nothing-Appends a h
id_field-Appends a key (some value) h =
    let p = field-Appends a key value h in thus p (ap_putc-Appends _ b',' p.room)

id_appended-Appends :
    (b : Build) (count : ℕ) (id : Option RegIdentity) (fp : ℕ)
    → Appends (empty meta_size) (id_appended b count id fp) (identity_text b count id fp)
unfolding id_appended identity_text
id_appended-Appends b count id fp =
    let built_text =
      codes "\"built\":\""
      ++ b.built
      ++ codes "\",\"regtable\":\""
      ++ regtable_version
      ++ codes "\"" in
    let last_text =
      codes ",\"regs\":"
      ++ format_lu count
      ++ codes ",\"schema\":\""
      ++ format_x 8 fp
      ++ codes "\"}" in
    let start = ap_putc (empty meta_size) b'{' in
    let device = id_field start (codes "\"device\":") (id >>= (λ i. i.device)) in
    let fw = id_field device (codes "\"fw\":") (id >>= (λ i. i.fw)) in
    let hash = id_field fw (codes "\"hash\":") (id >>= (λ i. i.hash)) in
    let chip = id_field hash (codes "\"chip\":") (id >>= (λ i. i.chip)) in
    let built = ap_puts chip built_text in
    let p0 = ap_putc-Appends (empty meta_size) b'{' (omega arith) in
    let p1 = id_field-Appends start (codes "\"device\":") (id >>= (λ i. i.device)) p0.room in
    let p2 = id_field-Appends device (codes "\"fw\":") (id >>= (λ i. i.fw)) p1.room in
    let p3 = id_field-Appends fw (codes "\"hash\":") (id >>= (λ i. i.hash)) p2.room in
    let p4 = id_field-Appends hash (codes "\"chip\":") (id >>= (λ i. i.chip)) p3.room in
    let p5 = ap_puts-Appends chip built_text p4.room in
    let p6 = ap_printf-Appends built last_text p5.room in
    thus (thus (thus (thus (thus (thus p0 p1) p2) p3) p4) p5) p6

-- The identity is accepted if its payload fits, and then that is the payload.
pub id_payload_lem :
    (b : Build) (count : ℕ) (id : Option RegIdentity) (fp : ℕ)
    → let (fits, payload) = id_payload b count id fp in
      (fits ≡ ltb (length (identity_text b count id fp)) meta_size)
      × (fits ≡ true → payload ≡ identity_text b count id fp)
unfolding id_payload
id_payload_lem b count id fp =
    let (over, whole) = from_empty meta_size _ _ (id_appended-Appends b count id fp) in
    (ground (arith, over), λ e. whole (ground arith))
