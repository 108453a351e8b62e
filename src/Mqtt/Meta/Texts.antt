-- ===== src/Mqtt/Meta/Texts.antt =====
-- The payloads as plain texts.
use regtable.Prelude.{ℕ}
use regtable.Prelude.{not, ◌&&◌, ◌||◌, ◌==◌, ltb, if◌then◌else◌, codes}
use regtable.Prelude.{Option, none, some, [], ◌∷◌, ◌++◌, length, ◌>>=◌}
use regtable.Core.Types.{RegType, reg_i8, reg_i16, reg_i32, reg_float, Text, RegEntry, RegIdentity}
use regtable.Core.Float.{float_lt, isnan}
use regtable.Core.Text.{Libc, format_lu, format_ld}
use regtable.Core.Names.{reg_type_str}
use regtable.Core.Format.{Build, regtable_version, format_x}
use regtable.Core.Json.{quoted}
use regtable.Mqtt.Appender.{flt_min, flt_max}
use regtable.Mqtt.Meta.{meta_body_size, perm_json}

-- A float in JSON.
unfoldable pub float_text : Libc → ℕ → Text
unfolding codes
float_text c f =
    if isnan f || float_lt flt_max f || float_lt f flt_min then codes "null" else c.format_g9 f

unfoldable pub limits_text : Libc → RegType → ℕ → ℕ → Text
limits_text c reg_float min max =
    (codes ",\"min\":" ++ float_text c min) ++ (codes ",\"max\":" ++ float_text c max)
limits_text c reg_i8 min max =
    codes ",\"min\":" ++ format_ld min ++ codes ",\"max\":" ++ format_ld max
limits_text c reg_i16 min max =
    codes ",\"min\":" ++ format_ld min ++ codes ",\"max\":" ++ format_ld max
limits_text c reg_i32 min max =
    codes ",\"min\":" ++ format_ld min ++ codes ",\"max\":" ++ format_ld max
limits_text c _ min max = codes ",\"min\":" ++ format_lu min ++ codes ",\"max\":" ++ format_lu max

-- The facts on an entry: its description aside.
unfoldable pub facts_text : Libc → RegEntry → ℕ → Text
facts_text c e index =
    (codes "{\"name\":" ++ quoted e.name)
    ++ (codes ",\"type\":" ++ quoted (reg_type_str e.type))
    ++ (codes ",\"perm\":" ++ perm_json e.perm)
    ++ (codes ",\"index\":" ++ format_lu index)
    ++ (if not (e.min == 0 && e.max == 0) then limits_text c e.type e.min e.max else [])
    ++ (if e.modbus_addr == 0 then [] else codes ",\"modbus\":" ++ format_lu e.modbus_addr)

-- The description, as a field.
unfoldable pub desc_text : Option Text → Text
desc_text none = []
desc_text (some desc) = codes ",\"desc\":" ++ quoted desc

-- The facts, with the description if there is room.
unfoldable pub body_text : Libc → RegEntry → ℕ → Text
unfolding facts_text desc_text
body_text c e index =
    let facts = facts_text c e index in
    let full = facts ++ desc_text e.description in
    if ltb (length full) meta_body_size then full else facts

unfoldable pub id_text : Text → Option Text → Text
id_text key none = []
id_text key (some value) = (key ++ quoted value) ++ (b',' ∷ [])

-- The payload of the identity.
unfoldable pub identity_text : Build → ℕ → Option RegIdentity → ℕ → Text
unfolding id_text
identity_text b count id fp =
    (b'{' ∷ [])
    ++ id_text (codes "\"device\":") (id >>= (λ i. i.device))
    ++ id_text (codes "\"fw\":") (id >>= (λ i. i.fw))
    ++ id_text (codes "\"hash\":") (id >>= (λ i. i.hash))
    ++ id_text (codes "\"chip\":") (id >>= (λ i. i.chip))
    ++ (codes "\"built\":\""
        ++ b.built
        ++ codes "\",\"regtable\":\""
        ++ regtable_version
        ++ codes "\"")
    ++ (codes ",\"regs\":"
        ++ format_lu count
        ++ codes ",\"schema\":\""
        ++ format_x 8 fp
        ++ codes "\"}")
