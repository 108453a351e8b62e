-- ===== src/Mqtt/Handle/Laws.antt =====
-- Which topics `regmqtt_handle` acts on, and what it does.
use regtable.Prelude.{◌≤◌, ◌⊎◌, ◌≡◌, ◌≢◌, ◌∙◌, ap, sym, inl, inr, refl, arith, false, ◌||◌}
use regtable.Prelude.{Option, none, some, [], ◌∷◌, ◌++◌, ltb, ◌==◌, ◌>>=◌, length}
use regtable.Prelude.{Bool-cases, Option-cases}
use regtable.Core.Types.{Text, reg_err_not_found, Device, EntryRef, RegTable}
use regtable.Core.Table.{str_eq, reg_find}
use regtable.Core.Table.Laws.{str_eq_iff}
use regtable.Core.Text.{Libc, reg_set_str}
use regtable.Mqtt.Handle.{
  name_max, strip_prefix, after_slash, longer, split_slash, set_suffix, checked, command_name,
  regmqtt_handle,
}

-- The topic of the commands to a register.
abbrev pub command_topic : Text → Text → Text
command_topic prefix name = prefix ++ (b'/' ∷ name ++ (b'/' ∷ b's' ∷ b'e' ∷ b't' ∷ []))

abbrev pub NoSlash : Text → Type 0
NoSlash [] = Unit
NoSlash (c ∷ s) = (c ≢ b'/') × NoSlash s

strip_prefix_append : (p s : Text) → strip_prefix p (p ++ s) ≡ some s
unfolding strip_prefix
strip_prefix_append [] s = refl
strip_prefix_append (c ∷ p) s = ground (arith, strip_prefix_append p s)

strip_prefix-some : (p s rest : Text) → strip_prefix p s ≡ some rest → s ≡ p ++ rest
unfolding strip_prefix
strip_prefix-some [] s rest h = cc
strip_prefix-some (c ∷ p) [] rest h = cc
strip_prefix-some (c ∷ p) (a ∷ s) rest h = elim (Bool-cases (c == a)) [
  | inl same ↦
      let e = strip_prefix-some p s rest (ground arith) in
      let ca : a ≡ c = ground arith in ap (λ x. x ∷ s) ca ∙ ap (λ l. c ∷ l) e
  | inr differs ↦ ground arith
]

split_slash_append :
    (name tail : Text)
    → NoSlash name
    → split_slash (name ++ (b'/' ∷ tail)) ≡ some (name, b'/' ∷ tail)
unfolding split_slash
split_slash_append [] tail h = refl
split_slash_append (c ∷ name) tail h =
    let other : (c == b'/') ≡ false = ground arith in rw (split_slash_append name tail h.1, other)

abbrev first_of : Option (Text × Text) → Text
first_of none = []
first_of (some p) = p.0

abbrev second_of : Option (Text × Text) → Text
second_of none = []
second_of (some p) = p.1

abbrev IsSplit : Text → Text → Text → Type 0
IsSplit s name tail = (s ≡ name ++ tail) × NoSlash name

-- A split is known by its parts.
same-IsSplit :
    (s n t name tail : Text)
    → IsSplit s n t
    → ◌≡◌ {A = Option (Text × Text)} (some (n, t)) (some (name, tail))
    → IsSplit s name tail
same-IsSplit s n t name tail is e = rw (← ap first_of e, ← ap second_of e) is

split_slash-some :
    (s name tail : Text) → split_slash s ≡ some (name, tail) → (s ≡ name ++ tail) × NoSlash name
unfolding split_slash
split_slash-some [] name tail h = cc
split_slash-some (c ∷ s) name tail h = elim (Bool-cases (c == b'/')) [
  | inl slash ↦ same-IsSplit (c ∷ s) [] (c ∷ s) name tail (refl, tt) (sym (rw slash) ∙ h)
  | inr other ↦
      let e : longer c (split_slash s) ≡ some (name, tail) = sym (rw other) ∙ h in
      elim (Option-cases (split_slash s)) [
        | inl nowhere ↦ cc (sym (ap (longer c) nowhere) ∙ e)
        | inr ((n, t), is) ↦
            let (e', free) = split_slash-some s n t is in
            let ne : c ≢ b'/' = ground arith in
            same-IsSplit (c ∷ s) (c ∷ n) t name tail (ap (λ l. c ∷ l) e', (ne, free))
              (sym (ap (longer c) is) ∙ e)
      ]
]

abbrev pub IsCommand : Text → Text → Text → Type 0
IsCommand prefix topic name =
    (topic ≡ command_topic prefix name) × NoSlash name × (1 ≤ length name) × (length name ≤ 31)

command_name-command :
    (prefix name : Text)
    → NoSlash name
    → 1 ≤ length name
    → length name ≤ name_max
    → command_name prefix (command_topic prefix name) ≡ some name
unfolding command_name str_eq
command_name-command prefix name h long short =
    let sizes : (length name == 0 || ltb name_max (length name)) ≡ false = ground arith in
    rw (
      strip_prefix_append prefix (b'/' ∷ name ++ set_suffix),
      split_slash_append name (b's' ∷ b'e' ∷ b't' ∷ []) h,
      sizes,
    )

checked-some :
    (name tail n : Text)
    → checked (name, tail) ≡ some n
    → (tail ≡ set_suffix) × (n ≡ name) × (1 ≤ length name) × (length name ≤ name_max)
checked-some name tail n h = elim (Bool-cases (str_eq tail set_suffix)) [
  | inl right ↦ elim (Bool-cases (length name == 0 || ltb name_max (length name))) [
    | inl sizes ↦ let e : none ≡ some n = sym (rw (right, sizes)) ∙ h in cc e
    | inr sizes ↦
        let e : some name ≡ some n = sym (rw (right, sizes)) ∙ h in
        ((str_eq_iff tail set_suffix).0 right, ground (arith, e), ground arith, ground arith)
  ]
  | inr wrong ↦ ground arith
]

after_slash-some : (s rest : Text) → after_slash s ≡ some rest → s ≡ b'/' ∷ rest
after_slash-some [] rest h = cc
after_slash-some (c ∷ s) rest h = ground arith

-- A computation that gives a value gives one at each step.
bind_some {ℓ κ} :
    {A : Type ℓ} {B : Type κ} (o : Option A) (f : A → Option B) (b : B)
    → (o >>= f) ≡ some b
    → (a : A) × (o ≡ some a) × (f a ≡ some b)
bind_some none f b h = cc h
bind_some (some a) f b h = (a, refl, h)

command_name-some :
    (prefix topic n : Text) → command_name prefix topic ≡ some n → IsCommand prefix topic n
unfolding command_name
command_name-some prefix topic n h =
    let (s, e, h1) = bind_some (strip_prefix prefix topic) _ n h in
    let (rest, e', h2) = bind_some (after_slash s) _ n h1 in
    let ((name, tail), e'', h3) = bind_some (split_slash rest) checked n h2 in
    let (is_set, same, long, short) = checked-some name tail n h3 in
    let (parts, free) = split_slash-some rest name tail e'' in
    let whole : topic ≡ command_topic prefix name =
      strip_prefix-some prefix topic s e
      ∙ ap (λ l. prefix ++ l)
          (after_slash-some s rest e' ∙ ap (λ l. b'/' ∷ l) (parts ∙ ap (λ l. name ++ l) is_set)) in
    rw same (whole, free, long, short)

-- A message on `<prefix>/<name>/set`, for a name without a slash of 1 to 31 bytes, does what
-- `reg_set_str` does with its payload to the entry of that name; if there is none, the result is
-- REG_ERR_NOT_FOUND and the device stays.
pub regmqtt_handle_set :
    (c : Libc) (t : RegTable) (prefix name payload : Text) (d : Device)
    → NoSlash name
    → 1 ≤ length name
    → length name ≤ 31
    → ((reg_find t name ≡ none)
        × (regmqtt_handle c t prefix (command_topic prefix name) payload d
            ≡ (reg_err_not_found, d)))
      ⊎ ((r : EntryRef) × (reg_find t name ≡ some r)
          × (regmqtt_handle c t prefix (command_topic prefix name) payload d
              ≡ reg_set_str c (some t) r payload d))
unfolding regmqtt_handle
regmqtt_handle_set c t prefix name payload d free long short =
    let named = command_name-command prefix name free long short in
    elim (Option-cases (reg_find t name)) [
      | inl nowhere ↦ inl (nowhere, rw (named, nowhere) refl)
      | inr (r, found) ↦ inr (r, found, rw (named, found) refl)
    ]

-- A message that has any effect, or gets any result but REG_ERR_NOT_FOUND, is on the topic
-- `<prefix>/<name>/set` of an entry of the table.
pub regmqtt_handle_only :
    (c : Libc) (t : RegTable) (prefix topic payload : Text) (d : Device)
    → regmqtt_handle c t prefix topic payload d ≢ (reg_err_not_found, d)
    → (name : Text) × (r : EntryRef) × IsCommand prefix topic name × (reg_find t name ≡ some r)
unfolding regmqtt_handle
regmqtt_handle_only c t prefix topic payload d effect =
    elim (Option-cases (command_name prefix topic)) [
      | inl e ↦ absurd (effect (rw e))
      | inr (name, e) ↦ elim (Option-cases (reg_find t name)) [
        | inl e' ↦ absurd (effect (rw (e, e')))
        | inr (r, e') ↦ (name, r, command_name-some prefix topic name e, e')
      ]
    ]
