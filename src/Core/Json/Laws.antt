-- ===== src/Core/Json/Laws.antt =====
-- Reading a JSON string that was quoted.
use regtable.Prelude.{ℕ, suc, ◌+◌, ◌*◌, ◌/◌, ◌%◌, ◌<◌, ◌≡◌, ◌∙◌, ap, refl, arith}
use regtable.Prelude.{true, false, leb, ltb, ◌==◌, if_cases, codes}
use regtable.Prelude.{some, [], ◌∷◌, ◌++◌}
use mathlib.Core.List.{append_assoc}
use regtable.Core.Types.{Text}
use regtable.Core.Format.{hex_digit, format_x}
use regtable.Core.Json.{
  escape, escaped, quoted, in_text, in_hex, put, put_if, shifted, hex_value, read_string, unquote,
}

hex_value-hex_digit : (v : ℕ) → v < 16 → hex_value (hex_digit b'a' v) ≡ some v
hex_value-hex_digit v h = ground arith

read_digit :
    (left v d : ℕ) (t : Text)
    → d < 16
    → read_string (in_hex (suc left) (some v)) (hex_digit b'a' d ∷ t)
      ≡ read_string (in_hex left (some (v * 16 + d))) t
unfolding read_string
read_digit left v d t h =
    ap (λ o. read_string (in_hex left (shifted v o)) t) (hex_value-hex_digit d h)

read_last :
    (v d : ℕ) (t : Text)
    → d < 16
    → read_string (in_hex 0 (some v)) (hex_digit b'a' d ∷ t)
      ≡ put (v * 16 + d) (read_string in_text t)
unfolding read_string
read_last v d t h = ap (λ o. put_if (shifted v o) (read_string in_text t)) (hex_value-hex_digit d h)

read_string-format_x :
    (c : ℕ) (t : Text)
    → c < 16 * 4096
    → read_string (in_hex 3 (some 0)) (format_x 4 c ++ t) ≡ put c (read_string in_text t)
unfolding format_x
read_string-format_x c t h =
    let d3 = c / 16 / 16 / 16 % 16 in
    let d2 = c / 16 / 16 % 16 in
    let d1 = c / 16 % 16 in
    read_digit 2 0 d3 _ (omega arith)
    ∙ read_digit 1 (0 * 16 + d3) d2 _ (omega arith)
    ∙ read_digit 0 ((0 * 16 + d3) * 16 + d2) d1 _ (omega arith)
    ∙ read_last (((0 * 16 + d3) * 16 + d2) * 16 + d1) (c % 16) t (omega arith)
    ∙ ap (λ n. put n (read_string in_text t)) (omega arith)

-- The escape of a byte is read as the byte.
read_string-escape :
    (c : ℕ) (t : Text)
    → c < 256
    → read_string in_text (escape c ++ t) ≡ put c (read_string in_text t)
unfolding escape codes read_string
read_string-escape c t h =
    let P : Text → Type 0 = λ e. read_string in_text (e ++ t) ≡ put c (read_string in_text t) in
    let same : (n : ℕ)
        → (c == n) ≡ true
        → put n (read_string in_text t) ≡ put c (read_string in_text t) =
      λ n e. ap (λ m. put m (read_string in_text t)) (ground arith) in
    if_cases P (c == b'"') _ _ (same b'"') λ quote.
      if_cases P (c == b'\\') _ _ (same b'\\') λ slash.
        if_cases P (c == b'\n') _ _ (same b'\n') λ e. if_cases P (c == b'\r') _ _ (same b'\r') λ e.
          if_cases P (c == b'\t') _ _ (same b'\t') λ e.
            if_cases P (leb 0x20 c) _ _
              (λ plain.
                let above : ltb c 0x20 ≡ false = ground arith in rw (quote, slash, above) refl)
              λ control. read_string-format_x c t (omega (arith, h))

abbrev pub AllBelow : ℕ → Text → Type 0
AllBelow n [] = Unit
AllBelow n (c ∷ s) = (c < n) × AllBelow n s

read_string-escaped :
    (s rest : Text)
    → AllBelow 256 s
    → read_string in_text (escaped s ++ (b'"' ∷ rest)) ≡ some (s, rest)
unfolding escaped read_string
read_string-escaped [] rest h = refl
read_string-escaped (c ∷ s) rest h =
    ap (read_string in_text) (append_assoc (escape c) (escaped s) (b'"' ∷ rest))
    ∙ read_string-escape c (escaped s ++ (b'"' ∷ rest)) h.0
    ∙ ap (put c) (read_string-escaped s rest h.1)

-- A string of bytes that is quoted is read as it was, and the rest stays.
pub unquote-quoted : (s rest : Text) → AllBelow 256 s → unquote (quoted s ++ rest) ≡ some (s, rest)
unfolding unquote quoted
unquote-quoted s rest h =
    ap (read_string in_text) (append_assoc (escaped s) (b'"' ∷ []) rest)
    ∙ read_string-escaped s rest h
