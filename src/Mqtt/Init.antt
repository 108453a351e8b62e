-- ===== src/Mqtt/Init.antt =====
-- Setting up, of src/regtable_mqtt.c: `regmqtt_init` and `regmqtt_set_identity`.
pub mod Accept
pub mod Laws
use regtable.Prelude.{
  ℕ, ◌+◌, ◌%◌, ◌^◌, Bool, true, false, not, ◌&&◌, ◌||◌, ltb, ◌==◌, if◌then◌else◌, codes,
}
use regtable.Prelude.{Option, none, some, List, [], ◌∷◌, ◌++◌, length, replicate, get_or}
use regtable.Core.Types.{Text, RegResult, reg_ok, reg_err_table, RegEntry, RegTable, RegIdentity}
use regtable.Core.Dirty.{dirty_words}
use regtable.Core.Table.{str_eq}
use regtable.Core.Schema.{reg_table_schema}
use regtable.Core.Text.{Libc}
use regtable.Core.Format.{Build}
use regtable.Mqtt.Handle.{name_max}
use regtable.Mqtt.Poll.{topic_size}
use regtable.Mqtt.Meta.{meta_fits, id_payload}

-- `RegMqtt`, but for `publish` and `user`, which the functions that send take as arguments.
pub record RegMqtt : Type 0 where
  pub table : Option RegTable
  pub prefix : Text
  pub identity : Option RegIdentity
  pub shadow : List ℕ
  pub synced : List ℕ

abbrev pub is_one_of : Text → ℕ → Bool
is_one_of [] c = false
is_one_of (x ∷ set) c = c == x || is_one_of set c

-- `strpbrk(s, set) != NULL`
unfoldable pub strpbrk : Text → Text → Bool
strpbrk [] set = false
strpbrk (c ∷ s) set = is_one_of set c || strpbrk s set

-- A name that is no level of a topic.
pub bad_name : Text → Bool
unfolding strpbrk codes
bad_name name =
    length name == 0
    || ltb name_max (length name)
    || strpbrk name (codes "/+#")
    || get_or name 0 0 == b'$'

-- The inner loop: an entry before has the name.
pub is_named : List RegEntry → Text → Bool
unfolding str_eq
is_named [] name = false
is_named (o ∷ os) name = str_eq o.name name || is_named os name

-- The outer loop, behind the entries `before`: whether the rest is accepted.
pub check_entries : Libc → ℕ → List RegEntry → ℕ → List RegEntry → Bool
unfolding bad_name is_named
check_entries c plen before i [] = true
check_entries c plen before i (e ∷ es) =
    let rest = check_entries c plen (before ++ (e ∷ [])) (i + 1) es in
    if bad_name e.name
    then false
    else if ltb topic_size (plen + 7 + length e.name + 1)
    then false
    else if is_named before e.name
    then false
    else if not (meta_fits c e (i % 2 ^ 16))
    then false
    else rest

-- `sizeof("/$meta/$table")`
abbrev pub table_suffix_size : ℕ
table_suffix_size = 14

-- The checks of `regmqtt_init`.
pub accepts : Libc → RegTable → Text → Bool
unfolding check_entries strpbrk codes
accepts c t prefix =
    if length prefix == 0 || strpbrk prefix (codes "+#")
    then false
    else if ltb topic_size (length prefix + table_suffix_size)
    then false
    else check_entries c (length prefix) [] 0 t.entries

abbrev pub bound : RegMqtt → RegTable → Text → RegMqtt
bound mq t prefix = record mq {
  table = some t;
  prefix = prefix;
  identity = none;
  synced = replicate dirty_words 0;
}

-- A NULL argument is `none`, and a NULL `publish` is `false`.
unfoldable pub regmqtt_init :
    Libc → Option RegMqtt → Option RegTable → Option Text → Bool → RegResult × Option RegMqtt
unfolding accepts
regmqtt_init c (some mq) (some t) (some prefix) true =
    if accepts c t prefix then (reg_ok, some (bound mq t prefix)) else (reg_err_table, some mq)
regmqtt_init c mq _ _ _ = (reg_err_table, mq)

pub identify : Build → RegMqtt → Option RegIdentity → Option RegTable → RegResult × RegMqtt
unfolding id_payload reg_table_schema
identify b mq id none = (reg_err_table, mq)
identify b mq id (some t) =
    if (id_payload b t.count id (reg_table_schema (some t))).0
    then (reg_ok, record mq { identity = id })
    else (reg_err_table, mq)

abbrev pub kept : RegResult × RegMqtt → RegResult × Option RegMqtt
kept (res, mq) = (res, some mq)

unfoldable pub regmqtt_set_identity :
    Build → Option RegMqtt → Option RegIdentity → RegResult × Option RegMqtt
unfolding identify
regmqtt_set_identity b none id = (reg_err_table, none)
regmqtt_set_identity b (some mq) id = kept (identify b mq id mq.table)
