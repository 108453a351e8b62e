-- ===== src/Mqtt/Init/Accept.antt =====
-- Which tables the checks of `regmqtt_init` accept.
use regtable.Prelude.{ℕ, ◌+◌, ◌%◌, ◌^◌, ◌<◌, ◌≤◌, ◌≡◌, ◌≢◌, ◌↔◌, sym, refl, arith}
use regtable.Prelude.{true, false, codes}
use regtable.Prelude.{List, [], ◌∷◌, ◌++◌, length, get_or}
use regtable.Core.Types.{Text, RegEntry, RegTable}
use regtable.Core.Table.Laws.{str_eq_iff, Lacks}
use regtable.Core.Text.{Libc}
use regtable.Mqtt.Handle.{name_max}
use regtable.Mqtt.Poll.{topic_size}
use regtable.Mqtt.Meta.{meta_body_size}
use regtable.Mqtt.Meta.Texts.{facts_text}
use regtable.Mqtt.Meta.Laws.{meta_fits_lem}
use regtable.Mqtt.Init.{strpbrk, bad_name, is_named, check_entries, table_suffix_size, accepts}

-- A name that is one level of a topic, and not a level of the metadata.
pub record IsName (name : Text) : Type 0 where
  pub some_byte : 1 ≤ length name
  pub short : length name ≤ name_max
  pub level : strpbrk name (codes "/+#") ≡ false
  pub plain : get_or name 0 0 ≢ b'$'

-- An entry that can be announced.
pub record IsEntry (c : Libc) (plen i : ℕ) (e : RegEntry) : Type 0 where
  pub named : IsName e.name
  pub topic : plen + 7 + length e.name + 1 ≤ topic_size
  pub meta : length (facts_text c e (i % 2 ^ 16)) < meta_body_size

abbrev pub AllEntries : Libc → ℕ → ℕ → List RegEntry → Type 0
AllEntries c plen i [] = Unit
AllEntries c plen i (e ∷ es) = IsEntry c plen i e × AllEntries c plen (i + 1) es

-- No two entries share a name.
abbrev pub Distinct : List RegEntry → Type 0
Distinct [] = Unit
Distinct (e ∷ es) = Lacks es e.name × Distinct es

-- A table and a prefix whose topics and payloads are all sound.
pub record IsPublishable (c : Libc) (t : RegTable) (prefix : Text) : Type 0 where
  pub some_prefix : 1 ≤ length prefix
  pub tame : strpbrk prefix (codes "+#") ≡ false
  pub room : length prefix + table_suffix_size ≤ topic_size
  pub entries : AllEntries c (length prefix) 0 t.entries
  pub distinct : Distinct t.entries

bad_name_iff : (name : Text) → (bad_name name ≡ false) ↔ IsName name
unfolding bad_name
bad_name_iff name = (
  λ h. record {
    some_byte = ground arith;
    short = ground arith;
    level = ground arith;
    plain = λ p. absurd (ground arith);
  },
  λ k. ground (arith, k.some_byte, k.short, k.level, k.plain),
)

is_named_iff : (os : List RegEntry) (name : Text) → (is_named os name ≡ false) ↔ Lacks os name
unfolding is_named
is_named_iff [] name = (λ h. tt, λ k. refl)
is_named_iff (o ∷ os) name = (
  λ h. (
    λ p. absurd (ground (arith, (str_eq_iff o.name name).1 p)),
    (is_named_iff os name).0 (ground arith),
  ),
  λ k. ground (arith, (str_eq_iff o.name name).0, (is_named_iff os name).1 k.1, k.0),
)

-- Each of `es` has a name that none of `before` has.
abbrev Apart : List RegEntry → List RegEntry → Type 0
Apart before [] = Unit
Apart before (e ∷ es) = Lacks before e.name × Apart before es

Lacks-snoc :
    (os : List RegEntry) (e : RegEntry) (name : Text)
    → Lacks (os ++ (e ∷ [])) name ↔ (Lacks os name × (e.name ≢ name))
Lacks-snoc [] e name = (λ h. (tt, h.0), λ k. (k.1, tt))
Lacks-snoc (o ∷ os) e name = (
  λ h. let (rest, apart) = (Lacks-snoc os e name).0 h.1 in ((h.0, rest), apart),
  λ k. (k.0.0, (Lacks-snoc os e name).1 (k.0.1, k.1)),
)

Apart-snoc :
    (before es : List RegEntry) (e : RegEntry)
    → Apart (before ++ (e ∷ [])) es ↔ (Apart before es × Lacks es e.name)
Apart-snoc before [] e = (λ h. (tt, tt), λ k. tt)
Apart-snoc before (x ∷ es) e = (
  λ h.
      let (lacks, apart) = (Lacks-snoc before e x.name).0 h.0 in
      let (rest, later) = (Apart-snoc before es e).0 h.1 in
      ((lacks, rest), (λ p. apart (sym p), later)),
  λ k. (
    (Lacks-snoc before e x.name).1 (k.0.0, λ p. k.1.0 (sym p)),
    (Apart-snoc before es e).1 (k.0.1, k.1.1),
  ),
)

module _ (c : Libc) (plen : ℕ) where
  -- What `check_entries` looks for.
  abbrev Accepted : List RegEntry → ℕ → List RegEntry → Type 0
  Accepted before i es = AllEntries c plen i es × Apart before es × Distinct es

  accepted_first :
      (before : List RegEntry) (i : ℕ) (e : RegEntry) (es : List RegEntry)
      → check_entries c plen before i (e ∷ es) ≡ true
      → (IsEntry c plen i e × Lacks before e.name)
        × (check_entries c plen (before ++ (e ∷ [])) (i + 1) es ≡ true)
  unfolding check_entries
  accepted_first before i e es h = (
    (
      record {
        named = (bad_name_iff e.name).0 (ground arith);
        topic = ground arith;
        meta = ground (arith, meta_fits_lem c e (i % 2 ^ 16));
      },
      (is_named_iff before e.name).0 (ground arith),
    ),
    ground arith,
  )

  first_accepted :
      (before : List RegEntry) (i : ℕ) (e : RegEntry) (es : List RegEntry)
      → IsEntry c plen i e
      → Lacks before e.name
      → check_entries c plen (before ++ (e ∷ [])) (i + 1) es ≡ true
      → check_entries c plen before i (e ∷ es) ≡ true
  unfolding check_entries
  first_accepted before i e es ok lacks rest = ground (
    arith,
    (bad_name_iff e.name).1 ok.named,
    (is_named_iff before e.name).1 lacks,
    ok.topic,
    ok.meta,
    meta_fits_lem c e (i % 2 ^ 16),
    rest,
  )

  check_entries_iff :
      (before : List RegEntry) (i : ℕ) (es : List RegEntry)
      → (check_entries c plen before i es ≡ true) ↔ Accepted before i es
  unfolding check_entries
  check_entries_iff before i [] = (λ h. (tt, tt, tt), λ k. refl)
  check_entries_iff before i (e ∷ es) =
      let rec = check_entries_iff (before ++ (e ∷ [])) (i + 1) es in
      (
        λ h.
            let ((ok, lacks), rest) = accepted_first before i e es h in
            let (all, apart, distinct) = rec.0 rest in
            let (before_apart, later) = (Apart-snoc before es e).0 apart in
            ((ok, all), (lacks, before_apart), (later, distinct)),
        λ k.
            first_accepted before i e es k.0.0 k.1.0
              (rec.1 (k.0.1, (Apart-snoc before es e).1 (k.1.1, k.2.0), k.2.1)),
      )

Apart-nil : (es : List RegEntry) → Apart [] es
Apart-nil [] = tt
Apart-nil (e ∷ es) = (tt, Apart-nil es)

pub accepts_iff :
    (c : Libc) (t : RegTable) (prefix : Text)
    → (accepts c t prefix ≡ true) ↔ IsPublishable c t prefix
unfolding accepts
accepts_iff c t prefix =
    let rec = check_entries_iff c (length prefix) [] 0 t.entries in
    (
      λ h.
          let (all, apart, distinct) = rec.0 (ground arith) in
          record {
            some_prefix = ground arith;
            tame = ground arith;
            room = ground arith;
            entries = all;
            distinct = distinct;
          },
      λ k.
          let all = rec.1 (k.entries, Apart-nil t.entries, k.distinct) in
          ground (arith, k.some_prefix, k.tame, k.room, all),
    )
