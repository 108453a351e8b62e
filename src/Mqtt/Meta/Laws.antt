-- ===== src/Mqtt/Meta/Laws.antt =====
-- What the functions of Mqtt/Meta on an entry append, and when it fits.
use regtable.Prelude.{ℕ, ◌<◌, ◌≡◌, ◌∙◌, sym, ap, refl, arith}
use regtable.Prelude.{
  true, false, not, ◌&&◌, ◌||◌, ◌==◌, leb, ltb, if◌then◌else◌, if_cases, if_both, codes,
}
use regtable.Prelude.{Option, none, some, [], ◌++◌, length, take, take-append}
use mathlib.Core.List.{append-nil}
use regtable.Core.Types.{RegType, reg_i8, reg_i16, reg_i32, reg_float, Text, RegEntry}
use regtable.Core.Float.{float_lt, isnan}
use regtable.Core.Text.{Libc, format_lu}
use regtable.Core.Names.{reg_type_str}
use regtable.Core.Json.{quoted}
use regtable.Mqtt.Appender.{
  Appender, flt_min, flt_max, ap_puts, ap_printf, ap_json_str, ap_json_float,
}
use regtable.Mqtt.Appender.Laws.{
  IsAppender, Appends, nothing-Appends, thus, after, ap_puts-Appends, ap_printf-Appends,
  ap_json_str-Appends,
}
use regtable.Mqtt.Meta.{
  meta_body_size, meta_limits, meta_desc, perm_json, meta_facts, meta_body, meta_fits, empty,
}
use regtable.Mqtt.Meta.Texts.{float_text, limits_text, facts_text, desc_text, body_text}

ap_json_float-Appends :
    (c : Libc) (a : Appender) (f : ℕ)
    → IsAppender a
    → Appends a (ap_json_float c a f) (float_text c f)
unfolding ap_json_float float_text
ap_json_float-Appends c a f h =
    if_both (Appends a) (isnan f || float_lt flt_max f || float_lt f flt_min)
      (λ e. ap_puts-Appends a _ h) (λ e. ap_printf-Appends a _ h)

pub field-Appends :
    (a : Appender) (key s : Text)
    → IsAppender a
    → Appends a (ap_json_str (ap_puts a key) s) (key ++ quoted s)
field-Appends a key s h = after (ap_puts-Appends a key h) (ap_json_str-Appends (ap_puts a key) s)

float_field-Appends :
    (c : Libc) (a : Appender) (key : Text) (f : ℕ)
    → IsAppender a
    → Appends a (ap_json_float c (ap_puts a key) f) (key ++ float_text c f)
float_field-Appends c a key f h =
    after (ap_puts-Appends a key h) (ap_json_float-Appends c (ap_puts a key) f)

meta_limits-Appends :
    (c : Libc) (a : Appender) (type : RegType) (min max : ℕ)
    → IsAppender a
    → Appends a (meta_limits c a type min max) (limits_text c type min max)
unfolding meta_limits limits_text
meta_limits-Appends c a reg_float min max h =
    let low = ap_json_float c (ap_puts a (codes ",\"min\":")) min in
    let high = ap_json_float c (ap_puts low (codes ",\"max\":")) max in
    let p = float_field-Appends c a (codes ",\"min\":") min h in
    let q = float_field-Appends c low (codes ",\"max\":") max p.room in thus p q
meta_limits-Appends c a reg_i8 min max h = ap_printf-Appends a _ h
meta_limits-Appends c a reg_i16 min max h = ap_printf-Appends a _ h
meta_limits-Appends c a reg_i32 min max h = ap_printf-Appends a _ h
meta_limits-Appends c a _ min max h = ap_printf-Appends a _ h

pub meta_facts-Appends :
    (c : Libc) (a : Appender) (e : RegEntry) (index : ℕ)
    → IsAppender a
    → Appends a (meta_facts c a e index) (facts_text c e index)
unfolding meta_facts facts_text
meta_facts-Appends c a e index h =
    let name = ap_json_str (ap_puts a (codes "{\"name\":")) e.name in
    let type = ap_json_str (ap_puts name (codes ",\"type\":")) (reg_type_str e.type) in
    let perm' = ap_puts type (codes ",\"perm\":") in
    let perm = ap_puts perm' (perm_json e.perm) in
    let place = ap_printf perm (codes ",\"index\":" ++ format_lu index) in
    let limits =
      if not (e.min == 0 && e.max == 0) then meta_limits c place e.type e.min e.max else place in
    let p1 = field-Appends a (codes "{\"name\":") e.name h in
    let p2 = field-Appends name (codes ",\"type\":") (reg_type_str e.type) p1.room in
    let p3 : Appends type perm (codes ",\"perm\":" ++ perm_json e.perm) =
      after {b = perm'} (ap_puts-Appends type (codes ",\"perm\":") p2.room)
        (ap_puts-Appends perm' (perm_json e.perm)) in
    let p4 = ap_printf-Appends perm (codes ",\"index\":" ++ format_lu index) p3.room in
    let p5 : Appends place limits
        (if not (e.min == 0 && e.max == 0) then limits_text c e.type e.min e.max else []) =
      if_both (Appends place) (not (e.min == 0 && e.max == 0))
        (λ b. meta_limits-Appends c place e.type e.min e.max p4.room)
        (λ b. nothing-Appends place p4.room) in
    let p6 =
      if_both (Appends limits) (e.modbus_addr == 0) (λ b. nothing-Appends limits p5.room)
        (λ b. ap_printf-Appends limits (codes ",\"modbus\":" ++ format_lu e.modbus_addr) p5.room) in
    thus (thus (thus (thus (thus p1 p2) p3) p4) p5) p6

-- From an empty buffer: whether the text fits, and the text.
pub from_empty :
    (size : ℕ) (a : Appender) (t : Text)
    → Appends (empty size) a t
    → (a.overflow ≡ leb size (length t)) × (a.overflow ≡ false → a.text ≡ t)
from_empty size a t p = (ground (arith, p.overflow), p.whole)

no_desc : (a : Appender) (desc : Option Text) → meta_desc a false desc ≡ a
unfolding meta_desc
no_desc a none = refl
no_desc a (some desc) = refl

-- `meta_fits` says whether the facts fit the buffer without the trailer.
pub meta_fits_lem :
    (c : Libc) (e : RegEntry) (index : ℕ)
    → meta_fits c e index ≡ ltb (length (facts_text c e index)) meta_body_size
unfolding meta_fits meta_body
meta_fits_lem c e index =
    let p = meta_facts-Appends c (empty meta_body_size) e index (omega arith) in
    ap (λ (a : Appender). not a.overflow) (no_desc _ e.description)
    ∙ ground (arith, (from_empty meta_body_size _ _ p).0)

meta_desc_lem :
    (a : Appender) (t : Text) (desc : Option Text)
    → Appends (empty meta_body_size) a t
    → a.overflow ≡ false
    → meta_desc a true desc ≡ record {
      text = if ltb (length (t ++ desc_text desc)) meta_body_size then t ++ desc_text desc else t;
      size = meta_body_size;
      overflow = false;
    }
unfolding meta_desc desc_text
meta_desc_lem a t none p fits =
    let whole =
      p.whole fits
      ∙ sym (
          if_cases (λ (x : Text). x ≡ t) (ltb (length (t ++ [])) meta_body_size) _ _
            (λ e. append-nil t) (λ e. refl)) in
    λ i. record { text = whole i; size = p.size i; overflow = fits i }
meta_desc_lem a t (some desc) p fits =
    let described = ap_json_str (ap_puts a (codes ",\"desc\":")) desc in
    let q = field-Appends a (codes ",\"desc\":") desc p.room in
    let r = thus p q in
    let (over, whole) =
      from_empty meta_body_size described (t ++ (codes ",\"desc\":" ++ quoted desc)) r in
    if_cases
      (λ (b : Appender). b ≡ record {
        text =
            if ltb (length (t ++ (codes ",\"desc\":" ++ quoted desc))) meta_body_size
            then t ++ (codes ",\"desc\":" ++ quoted desc)
            else t;
        size = meta_body_size;
        overflow = false;
      })
      described.overflow _ _
      (λ e.
        let big : ltb (length (t ++ (codes ",\"desc\":" ++ quoted desc))) meta_body_size ≡ false =
          ground (arith, over, e) in
        let (x, ex) = q.kept in
        let cut = ap (take (length a.text)) ex ∙ take-append a.text x ∙ p.whole fits in
        rw big λ i. record { text = cut i; size = r.size i; overflow = false })
      (λ e.
        let small : ltb (length (t ++ (codes ",\"desc\":" ++ quoted desc))) meta_body_size ≡ true =
          ground (arith, over, e) in
        let all = whole e in rw small λ i. record { text = all i; size = r.size i; overflow = e i })

-- Where the facts fit, the body is the text.
pub meta_body_lem :
    (c : Libc) (e : RegEntry) (index : ℕ)
    → length (facts_text c e index) < meta_body_size
    → meta_body c (empty meta_body_size) e index true
      ≡ record { text = body_text c e index; size = meta_body_size; overflow = false }
unfolding meta_body body_text
meta_body_lem c e index h =
    let p = meta_facts-Appends c (empty meta_body_size) e index (omega arith) in
    meta_desc_lem _ (facts_text c e index) e.description p (ground (arith, p.overflow))
