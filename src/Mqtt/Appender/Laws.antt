-- ===== src/Mqtt/Appender/Laws.antt =====
-- What the functions of the appender append.
use regtable.Prelude.{ℕ, ◌+◌, ◌<◌, ◌≡◌, ◌∙◌, sym, ap, refl, arith, inl, inr}
use regtable.Prelude.{true, false, ◌||◌, leb, ltb, ◌==◌, if_cases, if_both, Bool-cases}
use regtable.Prelude.{[], ◌∷◌, ◌++◌, length, length-append}
use mathlib.Core.List.{append-nil, append_assoc}
use regtable.Core.Types.{Text}
use regtable.Core.Json.{escape, escaped, quoted}
use regtable.Mqtt.Appender.{
  Appender, ap_putc, ap_puts, ap_printf, ap_json_char, ap_json_chars, ap_json_str,
}

-- There is room for the NUL.
abbrev pub IsAppender : Appender → Type 0
IsAppender a = length a.text < a.size

-- The text `t` was to be appended to `a`: the mark is set if it does not fit, and stays; while it
-- is not set, all that was to be appended is there.
pub record Appends (a a' : Appender) (t : Text) : Type 0 where
  pub size : a'.size ≡ a.size
  pub room : IsAppender a'
  pub overflow : a'.overflow ≡ (a.overflow || leb a.size (length a.text + length t))
  pub whole : a'.overflow ≡ false → a'.text ≡ a.text ++ t
  pub kept : (r : Text) × (a'.text ≡ a.text ++ r)

pub nothing-Appends : (a : Appender) → IsAppender a → Appends a a []
nothing-Appends a h = record {
  size = refl;
  room = h;
  overflow = ground arith;
  whole = λ f. sym (append-nil a.text);
  kept = ([], sym (append-nil a.text));
}

length_whole :
    (a b : Appender) (t : Text)
    → Appends a b t
    → b.overflow ≡ false
    → length b.text ≡ length a.text + length t
length_whole a b t p e = ap length (p.whole e) ∙ length-append a.text t

then-overflow :
    (a b c : Appender) (t u : Text)
    → Appends a b t
    → Appends b c u
    → c.overflow ≡ (a.overflow || leb a.size (length a.text + length (t ++ u)))
then-overflow a b c t u p q = elim (Bool-cases b.overflow) [
  | inl over ↦ ground (arith, p.overflow, q.overflow, over, length-append t u)
  | inr fits ↦
      ground
        (arith, p.overflow, q.overflow, p.size, fits, length_whole a b t p fits, length-append t u)
]

before-overflow :
    (b c : Appender) (u : Text) → Appends b c u → c.overflow ≡ false → b.overflow ≡ false
before-overflow b c u q e = ground (arith, q.overflow)

pub then-Appends :
    (a b c : Appender) (t u : Text) → Appends a b t → Appends b c u → Appends a c (t ++ u)
then-Appends a b c t u p q = record {
  size = q.size ∙ p.size;
  room = q.room;
  overflow = then-overflow a b c t u p q;
  whole = λ e.
      q.whole e ∙ ap (λ s. s ++ u) (p.whole (before-overflow b c u q e)) ∙ append_assoc a.text t u;
  kept =
      let (r, e) = p.kept in
      let (r', e') = q.kept in (r ++ r', e' ∙ ap (λ s. s ++ r') e ∙ append_assoc a.text r r');
}

-- One step after the other.
pub thus : {a b c : Appender} {t u : Text} → Appends a b t → Appends b c u → Appends a c (t ++ u)
thus {a = a} {b = b} {c = c} {t = t} {u = u} p q = then-Appends a b c t u p q

pub after :
    {a b c : Appender} {t u : Text}
    → Appends a b t
    → (IsAppender b → Appends b c u)
    → Appends a c (t ++ u)
after {a = a} {b = b} {c = c} {t = t} {u = u} p q = then-Appends a b c t u p (q p.room)

abbrev Over : Appender → Appender
Over a = record a { overflow = true }

full-Appends :
    (a : Appender) (t : Text)
    → IsAppender a
    → leb a.size (length a.text + length t) ≡ true
    → Appends a (Over a) t
full-Appends a t h full = record {
  size = refl;
  room = h;
  overflow = ground arith;
  whole = λ e. absurd (ground arith);
  kept = ([], sym (append-nil a.text));
}

fits-Appends :
    (a : Appender) (t : Text)
    → leb a.size (length a.text + length t) ≡ false
    → Appends a (record a { text = a.text ++ t }) t
fits-Appends a t fits = record {
  size = refl;
  room = ground (arith, length-append a.text t);
  overflow = ground arith;
  whole = λ e. refl;
  kept = (t, refl);
}

pub ap_putc-Appends : (a : Appender) (c : ℕ) → IsAppender a → Appends a (ap_putc a c) (c ∷ [])
unfolding ap_putc
ap_putc-Appends a c h =
    if_cases (λ (b : Appender). Appends a b (c ∷ [])) (ltb (length a.text + 1) a.size) _ _
      (λ fits. fits-Appends a (c ∷ []) (ground arith))
      (λ full. full-Appends a (c ∷ []) h (ground arith))

pub ap_puts-Appends : (a : Appender) (s : Text) → IsAppender a → Appends a (ap_puts a s) s
unfolding ap_puts
ap_puts-Appends a [] h = nothing-Appends a h
ap_puts-Appends a (c ∷ s) h =
    let p = ap_putc-Appends a c h in
    then-Appends a (ap_putc a c) _ (c ∷ []) s p (ap_puts-Appends (ap_putc a c) s p.room)

pub ap_printf-Appends : (a : Appender) (s : Text) → IsAppender a → Appends a (ap_printf a s) s
unfolding ap_printf
ap_printf-Appends a s h =
    if_cases (λ (b : Appender). Appends a b s) (leb a.size (length a.text + length s)) _ _
      (λ full. full-Appends a s h full) (λ fits. fits-Appends a s fits)

ap_json_char-Appends :
    (a : Appender) (c : ℕ) → IsAppender a → Appends a (ap_json_char a c) (escape c)
unfolding ap_json_char escape
ap_json_char-Appends a c h =
    if_both (Appends a) (c == b'"') (λ e. ap_puts-Appends a _ h)
      λ e.
        if_both (Appends a) (c == b'\\') (λ e. ap_puts-Appends a _ h)
          λ e.
            if_both (Appends a) (c == b'\n') (λ e. ap_puts-Appends a _ h)
              λ e.
                if_both (Appends a) (c == b'\r') (λ e. ap_puts-Appends a _ h)
                  λ e.
                    if_both (Appends a) (c == b'\t') (λ e. ap_puts-Appends a _ h)
                      λ e.
                        if_both (Appends a) (leb 0x20 c) (λ g. ap_putc-Appends a c h)
                          λ g. ap_printf-Appends a _ h

ap_json_chars-Appends :
    (a : Appender) (s : Text) → IsAppender a → Appends a (ap_json_chars a s) (escaped s)
unfolding ap_json_chars escaped
ap_json_chars-Appends a [] h = nothing-Appends a h
ap_json_chars-Appends a (c ∷ s) h =
    let p = ap_json_char-Appends a c h in
    then-Appends a (ap_json_char a c) _ (escape c) (escaped s) p
      (ap_json_chars-Appends (ap_json_char a c) s p.room)

-- From a text that leaves room for its NUL, `ap_json_str` keeps that room, appends the string quoted
-- and escaped if it fits, and sets the mark exactly if it does not fit or the mark was set.
pub ap_json_str-Appends :
    (a : Appender) (s : Text) → IsAppender a → Appends a (ap_json_str a s) (quoted s)
unfolding ap_json_str quoted
ap_json_str-Appends a s h =
    let a1 = ap_putc a b'"' in
    let a2 = ap_json_chars a1 s in
    let p = ap_putc-Appends a b'"' h in
    let q = ap_json_chars-Appends a1 s p.room in
    then-Appends a a1 _ (b'"' ∷ []) (escaped s ++ (b'"' ∷ [])) p
      (then-Appends a1 a2 _ (escaped s) (b'"' ∷ []) q (ap_putc-Appends a2 b'"' q.room))
