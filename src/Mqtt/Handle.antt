-- ===== src/Mqtt/Handle.antt =====
-- `regmqtt_handle` of src/regtable_mqtt.c: a message on a command topic. The
-- function takes the two fields of the adapter that it reads, the table and the prefix.
pub mod Access
pub mod Laws
use regtable.Prelude.{
  ℕ, ◌<◌, ◌≤◌, ◌≡◌, ◌≢◌, ◌∙◌, ap, sym, inl, inr, refl, arith, Bool, true, false, not, ◌||◌,
}
use regtable.Prelude.{
  Option, none, some, List, [], ◌∷◌, ◌++◌, ltb, ◌==◌, if◌then◌else◌, ◌>>=◌, length,
}
use regtable.Prelude.{Bool-cases, Option-cases}
use regtable.Core.Types.{Text, RegResult, reg_err_not_found, Device, EntryRef, RegTable}
use regtable.Core.Table.{str_eq, reg_find}
use regtable.Core.Table.Laws.{str_eq_iff}
use regtable.Core.Text.{Libc, reg_set_str}

-- REGMQTT_NAME_MAX
abbrev pub name_max : ℕ
name_max = 31

-- What follows the prefix, if `strncmp` finds it.
pub strip_prefix : Text → Text → Option Text
strip_prefix [] s = some s
strip_prefix (p ∷ ps) [] = none
strip_prefix (p ∷ ps) (c ∷ s) = let rest = strip_prefix ps s in if p == c then rest else none

-- `topic[plen] != '/'`, else the text behind it
abbrev pub after_slash : Text → Option Text
after_slash [] = none
after_slash (c ∷ s) = if c == b'/' then some s else none

abbrev pub longer : ℕ → Option (Text × Text) → Option (Text × Text)
longer c none = none
longer c (some (name, tail)) = some (c ∷ name, tail)

-- `strchr(name, '/')`: the text before the slash, and the text from it on.
pub split_slash : Text → Option (Text × Text)
split_slash [] = none
split_slash (c ∷ s) =
    let rest = split_slash s in if c == b'/' then some ([], c ∷ s) else longer c rest

abbrev pub set_suffix : Text
set_suffix = b'/' ∷ b's' ∷ b'e' ∷ b't' ∷ []

-- The name, if it is followed by `/set` and fits the buffer.
abbrev pub checked : Text × Text → Option Text
checked (name, tail) =
    if not (str_eq tail set_suffix)
    then none
    else if length name == 0 || ltb name_max (length name)
    then none
    else some name

-- The name in the topic `<prefix>/<name>/set`.
pub command_name : Text → Text → Option Text
unfolding strip_prefix split_slash
command_name prefix topic = do
  rest ← strip_prefix prefix topic
  name ← after_slash rest
  parts ← split_slash name
  checked parts

abbrev pub set_found : Libc → RegTable → Text → Device → Option EntryRef → RegResult × Device
set_found c t payload d none = (reg_err_not_found, d)
set_found c t payload d (some r) = reg_set_str c (some t) r payload d

unfoldable pub regmqtt_handle : Libc → RegTable → Text → Text → Text → Device → RegResult × Device
unfolding command_name
regmqtt_handle c t prefix topic payload d =
    set_found c t payload d (command_name prefix topic >>= (λ name. reg_find t name))
