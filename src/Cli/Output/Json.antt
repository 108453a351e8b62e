-- ===== src/Cli/Output/Json.antt =====
-- What the output helpers send, as texts.
use regtable.Prelude.{ℕ, ◌+◌, ◌%◌, ◌^◌, ◌<◌, ◌≤◌, ◌≡◌, ◌∙◌, sym, ap, refl, arith}
use regtable.Prelude.{
  Bool, true, false, not, ◌&&◌, leb, ◌==◌, if◌then◌else◌, if_cases, if_both, codes,
}
use regtable.Prelude.{Option, some, [], ◌∷◌, ◌++◌, length, take_all_of, length-append}
use mathlib.Core.List.{append-nil, append_assoc}
use regtable.Core.Types.{Text}
use regtable.Core.Format.{format_x, length-format_x}
use regtable.Core.Json.{escape, escaped, quoted, unquote}
use regtable.Core.Json.Laws.{AllBelow, unquote-quoted}
use regtable.Mqtt.Appender.{Appender, ap_json_str}
use regtable.Mqtt.Appender.Laws.{IsAppender, ap_json_str-Appends}
use regtable.Cli.Output.{
  Writes, sent, lit_room, lit_from, cli_lit, cli_print, json_escape, or_none, flush, str_from,
  json_str,
}

pub sent-append : (ws ws' : Writes) → sent (ws ++ ws') ≡ sent ws ++ sent ws'
unfolding sent
sent-append [] ws' = refl
sent-append (w ∷ ws) ws' =
    ap (λ t. w ++ t) (sent-append ws ws') ∙ sym (append_assoc w (sent ws) (sent ws'))

sent_one : (w : Text) → sent (w ∷ []) ≡ w
unfolding sent
sent_one w = append-nil w

-- A literal is sent as it is, in pieces.
sent-lit_from : (s buf : Text) → sent (lit_from s buf) ≡ buf ++ s
unfolding sent lit_from
sent-lit_from [] [] = refl
sent-lit_from [] (b ∷ buf) = refl
sent-lit_from (c ∷ s) buf =
    if_cases (λ (ws : Writes). sent ws ≡ buf ++ (c ∷ s)) (length (buf ++ (c ∷ [])) == lit_room) _ _
      (λ full.
        ap (λ x. (buf ++ (c ∷ [])) ++ sent (lit_from s (if x then [] else buf ++ (c ∷ [])))) full
        ∙ ap (λ t. (buf ++ (c ∷ [])) ++ t) (sent-lit_from s [])
        ∙ append_assoc buf (c ∷ []) s)
      (λ more.
        ap (λ x. sent (lit_from s (if x then [] else buf ++ (c ∷ [])))) more
        ∙ sent-lit_from s (buf ++ (c ∷ []))
        ∙ append_assoc buf (c ∷ []) s)

pub sent-cli_lit : (s : Text) → sent (cli_lit s) ≡ s
unfolding cli_lit
sent-cli_lit s = sent-lit_from s []

sent-cli_print : (s : Text) → length s ≤ 127 → sent (cli_print s) ≡ s
unfolding cli_print sent
sent-cli_print [] h = refl
sent-cli_print (c ∷ s) h = sent_one _ ∙ take_all_of (c ∷ s) 127 h

sent-flush : (run : Text) → length run < 2 ^ 16 → sent (flush run) ≡ run
unfolding sent
sent-flush [] h = refl
sent-flush (c ∷ run) h =
    sent_one _ ∙ take_all_of (c ∷ run) (length (c ∷ run) % 2 ^ 16) (omega arith)

abbrev is_plain : ℕ → Bool
is_plain c = leb 0x20 c && not (c == b'"') && not (c == b'\\')

escape_plain : (c : ℕ) → is_plain c ≡ true → escape c ≡ c ∷ []
unfolding escape
escape_plain c h = ground arith

length-unicode : (c : ℕ) → length (codes "\\u" ++ format_x 4 c) ≤ 127
unfolding codes
length-unicode c = omega (arith, length-append (codes "\\u") (format_x 4 c), length-format_x 4 c)

sent-json_escape : (c : ℕ) → is_plain c ≡ false → sent (or_none (json_escape c)) ≡ escape c
unfolding json_escape escape
sent-json_escape c h =
    let R : Option Writes → Text → Type 0 = λ o t. sent (or_none o) ≡ t in
    if_both R (c == b'"') (λ e. sent-cli_lit _)
      λ quote.
        if_both R (c == b'\\') (λ e. sent-cli_lit _)
          λ slash.
            if_both R (c == b'\n') (λ e. sent-cli_lit _)
              λ e.
                if_both R (c == b'\r') (λ e. sent-cli_lit _)
                  λ e.
                    if_both R (c == b'\t') (λ e. sent-cli_lit _)
                      λ e.
                        if_both R (leb 0x20 c) (λ g. absurd (ground arith))
                          λ g. sent-cli_print (codes "\\u" ++ format_x 4 c) (length-unicode c)

-- The loop, behind a run of plain bytes.
sent-str_from :
    (s run : Text) → length run + length s < 2 ^ 16 → sent (str_from s run) ≡ run ++ escaped s
unfolding str_from escaped
sent-str_from [] run h = sent-flush run (omega (arith, h)) ∙ sym (append-nil run)
sent-str_from (c ∷ s) run h =
    let run' = run ++ (c ∷ []) in
    let len = length-append run (c ∷ []) in
    if_cases (λ (ws : Writes). sent ws ≡ run ++ (escape c ++ escaped s)) (is_plain c) _ _
      (λ plain.
        ap (λ x. sent (str_from s (if x then run' else []))) plain
        ∙ sent-str_from s run' (omega (arith, h, len))
        ∙ append_assoc run (c ∷ []) (escaped s)
        ∙ ap (λ t. run ++ (t ++ escaped s)) (sym (escape_plain c plain)))
      (λ special.
        sent-append (flush run ++ or_none (json_escape c)) _
        ∙ ap (λ t. t ++ sent (str_from s (if is_plain c then run' else [])))
            (sent-append (flush run) (or_none (json_escape c)))
        ∙ (λ i.
            (sent-flush run (omega (arith, h)) i ++ sent-json_escape c special i)
            ++ sent (str_from s (if special i then run' else [])))
        ∙ ap (λ t. (run ++ escape c) ++ t) (sent-str_from s [] (omega (arith, h)))
        ∙ append_assoc run (escape c) (escaped s))

-- A text of less than 2^16 bytes is sent as a JSON string.
pub sent-json_str : (s : Text) → length s < 2 ^ 16 → sent (json_str s) ≡ quoted s
unfolding json_str quoted sent
sent-json_str s h =
    ap (λ t. b'"' ∷ t)
      (sent-append (str_from s []) ((b'"' ∷ []) ∷ [])
        ∙ ap (λ t. t ++ (b'"' ∷ [])) (sent-str_from s [] (omega (arith, h))))

-- A text of less than 2^16 bytes that `json_str` sends is read back as it was by a reader of JSON
-- strings that refuses control bytes, escapes that JSON does not have and digits that are none;
-- what is sent after it is left.
pub unquote-json_str :
    (s rest : Text)
    → length s < 2 ^ 16
    → AllBelow 256 s
    → unquote (sent (json_str s) ++ rest) ≡ some (s, rest)
unquote-json_str s rest h bytes =
    ap (λ t. unquote (t ++ rest)) (sent-json_str s h) ∙ unquote-quoted s rest bytes

-- The MQTT adapter escapes as the CLI does: where `ap_json_str` sets no mark, it appends the bytes
-- that `json_str` sends, for a text of less than 2^16 bytes.
pub ap_json_str-json_str :
    (a : Appender) (s : Text)
    → IsAppender a
    → length s < 2 ^ 16
    → (ap_json_str a s).overflow ≡ false
    → (ap_json_str a s).text ≡ a.text ++ sent (json_str s)
ap_json_str-json_str a s room h fits =
    (ap_json_str-Appends a s room).whole fits ∙ ap (λ t. a.text ++ t) (sym (sent-json_str s h))
