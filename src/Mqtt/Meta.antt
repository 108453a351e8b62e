-- ===== src/Mqtt/Meta.antt =====
-- The payloads of the description that src/regtable_mqtt.c publishes of a table.
pub mod Texts
pub mod Laws
pub mod Identity
use regtable.Prelude.{ℕ, ◌-◌, ◌+◌, Bool, true, false, not, ◌&&◌, ◌==◌, if◌then◌else◌, codes}
use regtable.Prelude.{Option, none, some, [], ◌∷◌, ◌++◌, length, take, ◌>>=◌}
use regtable.Core.Types.{
  RegType, reg_i8, reg_i16, reg_i32, reg_float, RegPerm, reg_ro, reg_rw, Text, RegEntry,
  RegIdentity,
}
use regtable.Core.Text.{Libc, format_lu, format_ld}
use regtable.Core.Names.{reg_type_str}
use regtable.Core.Format.{Build, regtable_version, format_x}
use regtable.Mqtt.Appender.{Appender, ap_putc, ap_puts, ap_printf, ap_json_str, ap_json_float}

-- REGTABLE_MQTT_META_SIZE, at its default
abbrev pub meta_size : ℕ
meta_size = 160

-- META_BODY_SIZE: the rest of the buffer is for the trailer.
abbrev pub meta_body_size : ℕ
meta_body_size = meta_size - 21

-- The limits, in the domain of the type.
pub meta_limits : Libc → Appender → RegType → ℕ → ℕ → Appender
meta_limits c a reg_float min max =
    ap_json_float c
      (ap_puts (ap_json_float c (ap_puts a (codes ",\"min\":")) min) (codes ",\"max\":")) max
meta_limits c a reg_i8 min max =
    ap_printf a (codes ",\"min\":" ++ format_ld min ++ codes ",\"max\":" ++ format_ld max)
meta_limits c a reg_i16 min max =
    ap_printf a (codes ",\"min\":" ++ format_ld min ++ codes ",\"max\":" ++ format_ld max)
meta_limits c a reg_i32 min max =
    ap_printf a (codes ",\"min\":" ++ format_ld min ++ codes ",\"max\":" ++ format_ld max)
meta_limits c a _ min max =
    ap_printf a (codes ",\"min\":" ++ format_lu min ++ codes ",\"max\":" ++ format_lu max)

-- The description; where it does not fit, the text is cut back to what stood before it.
pub meta_desc : Appender → Bool → Option Text → Appender
meta_desc a with_desc none = a
meta_desc a with_desc (some desc) =
    let described = ap_json_str (ap_puts a (codes ",\"desc\":")) desc in
    if with_desc
    then (if described.overflow
        then record described { overflow = false; text = take (length a.text) described.text }
        else described)
    else a

abbrev pub perm_json : RegPerm → Text
perm_json reg_ro = codes "\"RO\""
perm_json reg_rw = codes "\"RW\""

-- `meta_body` before the description
pub meta_facts : Libc → Appender → RegEntry → ℕ → Appender
meta_facts c a e index =
    let name = ap_json_str (ap_puts a (codes "{\"name\":")) e.name in
    let type = ap_json_str (ap_puts name (codes ",\"type\":")) (reg_type_str e.type) in
    let perm = ap_puts (ap_puts type (codes ",\"perm\":")) (perm_json e.perm) in
    let place = ap_printf perm (codes ",\"index\":" ++ format_lu index) in
    let limits =
      if not (e.min == 0 && e.max == 0) then meta_limits c place e.type e.min e.max else place in
    if e.modbus_addr == 0
    then limits
    else ap_printf limits (codes ",\"modbus\":" ++ format_lu e.modbus_addr)

unfoldable pub meta_body : Libc → Appender → RegEntry → ℕ → Bool → Appender
meta_body c a e index with_desc = meta_desc (meta_facts c a e index) with_desc e.description

abbrev pub empty : ℕ → Appender
empty size = record { text = []; size = size; overflow = false }

unfoldable pub meta_fits : Libc → RegEntry → ℕ → Bool
meta_fits c e index = not (meta_body c (empty meta_body_size) e index false).overflow

-- A string of the identity; one that is absent is left out.
pub id_field : Appender → Text → Option Text → Appender
id_field a key none = a
id_field a key (some value) = ap_putc (ap_json_str (ap_puts a key) value) b','

-- The appender of `id_payload`, into a buffer of `meta_size`.
pub id_appended : Build → ℕ → Option RegIdentity → ℕ → Appender
id_appended b count id fp =
    let device =
      id_field (ap_putc (empty meta_size) b'{') (codes "\"device\":") (id >>= (λ i. i.device)) in
    let fw = id_field device (codes "\"fw\":") (id >>= (λ i. i.fw)) in
    let hash = id_field fw (codes "\"hash\":") (id >>= (λ i. i.hash)) in
    let chip = id_field hash (codes "\"chip\":") (id >>= (λ i. i.chip)) in
    let built = ap_puts chip (
      codes "\"built\":\""
      ++ b.built
      ++ codes "\",\"regtable\":\""
      ++ regtable_version
      ++ codes "\"") in
    ap_printf built (
      codes ",\"regs\":"
      ++ format_lu count
      ++ codes ",\"schema\":\""
      ++ format_x 8 fp
      ++ codes "\"}")

-- Whether the payload fits, and the payload.
unfoldable pub id_payload : Build → ℕ → Option RegIdentity → ℕ → Bool × Text
id_payload b count id fp = let a = id_appended b count id fp in (not a.overflow, a.text)
