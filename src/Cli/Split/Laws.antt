-- ===== src/Cli/Split/Laws.antt =====
-- What `cli_split` makes of a line that is given as words with blanks around them.
use regtable.Prelude.{ℕ, zero, suc, ◌<◌, ◌≤◌, ◌≡◌, ◌⊎◌, ◌∙◌, sym, ap, refl, arith, inl, inr}
use regtable.Prelude.{Bool, true, false, ◌||◌, ltb, ◌==◌, if◌then◌else◌, Bool-cases}
use regtable.Prelude.{List, [], ◌∷◌, ◌++◌, length, take, length-append, take_all_of, length-take}
use mathlib.Core.List.{append-nil, append_assoc}
use regtable.Core.Types.{Text}
use regtable.Core.Table.{str_eq}
use regtable.Cli.Split.{
  max_args, is_blank, Split, json_flag, take_token, end_token, split_from, cli_split,
}

abbrev pub AllBlank : Text → Type 0
AllBlank [] = Unit
AllBlank (c ∷ s) = (is_blank c ≡ true) × AllBlank s

abbrev pub NoBlank : Text → Type 0
NoBlank [] = Unit
NoBlank (c ∷ s) = (is_blank c ≡ false) × NoBlank s

abbrev pub IsWord : Text → Type 0
IsWord s = (1 ≤ length s) × NoBlank s

-- Words, each with the blanks behind it; the last may have none.
abbrev pub AreWords : List (Text × Text) → Type 0
AreWords [] = Unit
AreWords ((word, gap) ∷ ps) =
    IsWord word × AllBlank gap × ((1 ≤ length gap) ⊎ (ps ≡ [])) × AreWords ps

abbrev pub laid_out : List (Text × Text) → Text
laid_out [] = []
laid_out ((word, gap) ∷ ps) = word ++ (gap ++ laid_out ps)

abbrev pub words_of : List (Text × Text) → List Text
words_of [] = []
words_of ((word, gap) ∷ ps) = word ∷ words_of ps

abbrev pub is_flag : Text → Bool
is_flag w = str_eq w json_flag

-- The words but the flag, and whether it is there.
unfoldable pub plain_words : List Text → List Text
plain_words [] = []
plain_words (w ∷ ws) = let rest = plain_words ws in if is_flag w then rest else w ∷ rest

unfoldable pub has_flag : List Text → Bool
has_flag [] = false
has_flag (w ∷ ws) = is_flag w || has_flag ws

-- The flag is taken out wherever it stands; of the other words there are `max_args` at most.
unfoldable pub described : List Text → Split
unfolding plain_words has_flag
described ws = record {
  argv = take max_args (plain_words ws);
  too_many = ltb max_args (length (plain_words ws));
  json = has_flag ws;
}

take_all : Split → List Text → Split
take_all s [] = s
take_all s (w ∷ ws) = take_all (take_token w s) ws

plain_words-append :
    (ws : List Text) (w : Text)
    → plain_words (ws ++ (w ∷ [])) ≡ plain_words ws ++ (if is_flag w then [] else w ∷ [])
unfolding plain_words
plain_words-append [] w = ground arith
plain_words-append (a ∷ ws) w = elim (Bool-cases (is_flag a)) [
  | inl flag ↦ rw flag (plain_words-append ws w)
  | inr word ↦ rw word (ap (λ l. a ∷ l) (plain_words-append ws w))
]

has_flag-append : (ws : List Text) (w : Text) → has_flag (ws ++ (w ∷ [])) ≡ has_flag ws || is_flag w
unfolding has_flag
has_flag-append [] w = ground arith
has_flag-append (a ∷ ws) w = ground (arith, has_flag-append ws w)

take_full :
    (n : ℕ) (ws : List Text) (w : Text) → n ≤ length ws → take n (ws ++ (w ∷ [])) ≡ take n ws
take_full zero [] w h = refl
take_full zero (a ∷ ws) w h = refl
take_full (suc n) [] w h = absurd (omega arith)
take_full (suc n) (a ∷ ws) w h = ap (λ l. a ∷ l) (take_full n ws w (omega arith))

true-or : (x : Bool) → true ≡ (x || true)
true-or true = refl
true-or false = refl

or-false : (x : Bool) → x ≡ (x || false)
or-false true = refl
or-false false = refl

take_token-described :
    (ws : List Text) (w : Text) → take_token w (described ws) ≡ described (ws ++ (w ∷ []))
unfolding take_token described
take_token-described ws w =
    let p = plain_words ws in
    let more = length-append p (w ∷ []) in
    let known = length-take max_args p in
    elim (Bool-cases (is_flag w)) [
      | inl flag ↦
          let same = sym (append-nil p) in
          let present = true-or (has_flag ws) in
          rw (plain_words-append ws w, has_flag-append ws w, flag)
            λ i. record {
              argv = take max_args (same i);
              too_many = ltb max_args (length (same i));
              json = present i;
            }
      | inr word ↦
          let absent = or-false (has_flag ws) in
          elim (Bool-cases (length (take max_args p) == max_args)) [
            | inl full ↦
                let same = sym (take_full max_args p w (ground arith)) in
                let over : true ≡ ltb max_args (length (p ++ (w ∷ []))) = ground arith in
                rw (plain_words-append ws w, has_flag-append ws w, word, full)
                  λ i. record { argv = same i; too_many = over i; json = absent i }
            | inr room ↦
                let few : length p < max_args = ground arith in
                let same =
                  ap (λ l. l ++ (w ∷ [])) (take_all_of p max_args (omega arith))
                  ∙ sym (take_all_of (p ++ (w ∷ [])) max_args (omega arith)) in
                let under : ltb max_args (length p) ≡ ltb max_args (length (p ++ (w ∷ []))) =
                  ground arith in
                rw (plain_words-append ws w, has_flag-append ws w, word, room)
                  λ i. record { argv = same i; too_many = under i; json = absent i }
          ]
    ]

take_all-described : (us ws : List Text) → take_all (described us) ws ≡ described (us ++ ws)
unfolding take_all
take_all-described us [] = ap described (sym (append-nil us))
take_all-described us (w ∷ ws) =
    ap (λ s. take_all s ws) (take_token-described us w)
    ∙ take_all-described (us ++ (w ∷ [])) ws
    ∙ ap described (append_assoc us (w ∷ []) ws)

split_from-step :
    (c : ℕ) (line tok : Text) (s : Split) {b : Bool}
    → is_blank c ≡ b
    → split_from (c ∷ line) tok s
      ≡ split_from line (if b then [] else tok ++ (c ∷ [])) (if b then end_token tok s else s)
unfolding split_from
split_from-step c line tok s e =
    ap (λ x. split_from line (if x then [] else tok ++ (c ∷ [])) (if x then end_token tok s else s))
      e

split_from-blanks :
    (gap line : Text) (s : Split)
    → AllBlank gap
    → split_from (gap ++ line) [] s ≡ split_from line [] s
unfolding end_token
split_from-blanks [] line s h = refl
split_from-blanks (c ∷ gap) line s h =
    split_from-step c (gap ++ line) [] s h.0 ∙ split_from-blanks gap line s h.1

split_from-word :
    (word line tok : Text) (s : Split)
    → NoBlank word
    → split_from (word ++ line) tok s ≡ split_from line (tok ++ word) s
split_from-word [] line tok s h = ap (λ t. split_from line t s) (sym (append-nil tok))
split_from-word (c ∷ word) line tok s h =
    split_from-step c (word ++ line) tok s h.0
    ∙ split_from-word word line (tok ++ (c ∷ [])) s h.1
    ∙ ap (λ t. split_from line t s) (append_assoc tok (c ∷ []) word)

end_word : (word : Text) (s : Split) → 1 ≤ length word → end_token word s ≡ take_token word s
unfolding end_token
end_word [] s h = absurd (omega arith)
end_word (c ∷ word) s h = refl

split_from-laid_out :
    (ps : List (Text × Text)) (s : Split)
    → AreWords ps
    → split_from (laid_out ps) [] s ≡ take_all s (words_of ps)
unfolding split_from take_all
split_from-laid_out [] s h = refl
split_from-laid_out ((word, []) ∷ []) s h =
    split_from-word word [] [] s h.0.1 ∙ end_word word s h.0.0
split_from-laid_out ((word, []) ∷ (p ∷ ps)) s h = elim (h.2) [
  | inl more ↦ absurd (omega arith)
  | inr last ↦ cc last
]
split_from-laid_out ((word, c ∷ gap) ∷ ps) s h =
    split_from-word word (c ∷ (gap ++ laid_out ps)) [] s h.0.1
    ∙ split_from-step c (gap ++ laid_out ps) word s h.1.0
    ∙ split_from-blanks gap (laid_out ps) (end_token word s) h.1.1
    ∙ split_from-laid_out ps (end_token word s) h.3
    ∙ ap (λ t. take_all t (words_of ps)) (end_word word s h.0.0)

-- Of a line that is words with blanks before, between and after them, `cli_split` gives the words
-- but the flag `--json`, four at most, says if there are more than four, and if the flag is there.
pub cli_split-laid_out :
    (lead : Text) (ps : List (Text × Text))
    → AllBlank lead
    → AreWords ps
    → cli_split (lead ++ laid_out ps) ≡ described (words_of ps)
unfolding cli_split described plain_words has_flag
cli_split-laid_out lead ps blank words =
    split_from-blanks lead (laid_out ps) _ blank
    ∙ split_from-laid_out ps _ words
    ∙ take_all-described [] (words_of ps)
