-- ===== src/Cli/Process/Answer.antt =====
-- The answer to a command, of src/regtable_cli.c: `cli_result`, as text.
use regtable.Prelude.{◌%◌, ◌^◌, ◌<◌, ◌≡◌, ◌∙◌, refl, ap, arith, Bool, true, false, codes}
use regtable.Prelude.{[], ◌∷◌, ◌++◌, length, take_all_of}
use mathlib.Core.List.{append-nil}
use regtable.Core.Types.{
  Text, RegResult, reg_ok, reg_err_not_found, reg_err_readonly, reg_err_type, reg_err_range,
  reg_err_rejected, reg_err_table,
}
use regtable.Core.Names.{reg_result_str}
use regtable.Core.Json.{escape, escaped, quoted}
use regtable.Cli.Output.{sent, cli_puts, cli_lit, json_error, json_str}
use regtable.Cli.Output.Json.{sent-append, sent-cli_lit, sent-json_str}
use regtable.Cli.Commands.{status_json, cli_result}

-- What a user reads of a result.
pub result_text : RegResult → Text
unfolding codes
result_text reg_ok = codes "OK"
result_text reg_err_not_found = codes "ERR: not found"
result_text reg_err_readonly = codes "ERR: read-only"
result_text reg_err_type = codes "ERR: invalid value"
result_text reg_err_range = codes "ERR: out of range"
result_text reg_err_rejected = codes "ERR: rejected"
result_text reg_err_table = codes "ERR: bad table"

-- The same, as a line of JSON.
pub json_text : RegResult → Text
unfolding codes result_text
json_text reg_ok = codes "{\"result\":\"OK\"}\r\n"
json_text r = codes "{\"error\":\"" ++ result_text r ++ codes "\"}\r\n"

-- The line that answers, as JSON or plain.
pub answer_text : Bool → RegResult → Text
unfolding codes result_text json_text
answer_text true r = json_text r
answer_text false r = result_text r ++ codes "\r\n"

sent-cli_puts : (s : Text) → length s < 2 ^ 16 → sent (cli_puts s) ≡ s
unfolding cli_puts sent
sent-cli_puts s h = append-nil _ ∙ take_all_of s (length s % 2 ^ 16) (omega arith)

reg_result_str-text : (r : RegResult) → reg_result_str r ≡ result_text r
unfolding reg_result_str result_text
reg_result_str-text reg_ok = refl
reg_result_str-text reg_err_not_found = refl
reg_result_str-text reg_err_readonly = refl
reg_result_str-text reg_err_type = refl
reg_result_str-text reg_err_range = refl
reg_result_str-text reg_err_rejected = refl
reg_result_str-text reg_err_table = refl

length-result_text : (r : RegResult) → length (result_text r) < 2 ^ 16
unfolding result_text codes
length-result_text reg_ok = omega arith
length-result_text reg_err_not_found = omega arith
length-result_text reg_err_readonly = omega arith
length-result_text reg_err_type = omega arith
length-result_text reg_err_range = omega arith
length-result_text reg_err_rejected = omega arith
length-result_text reg_err_table = omega arith

-- No byte of these texts is escaped.
quoted-result_text : (r : RegResult) → quoted (result_text r) ≡ b'"' ∷ result_text r ++ (b'"' ∷ [])
unfolding result_text codes quoted escaped escape
quoted-result_text reg_ok = refl
quoted-result_text reg_err_not_found = refl
quoted-result_text reg_err_readonly = refl
quoted-result_text reg_err_type = refl
quoted-result_text reg_err_range = refl
quoted-result_text reg_err_rejected = refl
quoted-result_text reg_err_table = refl

sent-json_error :
    (r : RegResult)
    → sent (json_error r)
      ≡ codes "{\"error\":" ++ ((b'"' ∷ result_text r ++ (b'"' ∷ [])) ++ codes "}\r\n")
unfolding json_error
sent-json_error r =
    sent-append (cli_lit (codes "{\"error\":"))
      (json_str (reg_result_str r) ++ cli_lit (codes "}\r\n"))
    ∙ ap (λ t. sent (cli_lit (codes "{\"error\":")) ++ t)
        (sent-append (json_str (reg_result_str r)) (cli_lit (codes "}\r\n")))
    ∙ (λ i.
        sent-cli_lit (codes "{\"error\":") i
        ++ (sent (json_str (reg_result_str-text r i)) ++ sent-cli_lit (codes "}\r\n") i))
    ∙ ap (λ t. codes "{\"error\":" ++ (t ++ codes "}\r\n"))
        (sent-json_str (result_text r) (length-result_text r) ∙ quoted-result_text r)

sent-status_json : (r : RegResult) → sent (status_json r) ≡ json_text r
unfolding json_text result_text codes
sent-status_json reg_ok = sent-cli_lit (codes "{\"result\":\"OK\"}\r\n")
sent-status_json reg_err_not_found = sent-json_error reg_err_not_found
sent-status_json reg_err_readonly = sent-json_error reg_err_readonly
sent-status_json reg_err_type = sent-json_error reg_err_type
sent-status_json reg_err_range = sent-json_error reg_err_range
sent-status_json reg_err_rejected = sent-json_error reg_err_rejected
sent-status_json reg_err_table = sent-json_error reg_err_table

pub sent-cli_result : (r : RegResult) (json : Bool) → sent (cli_result r json) ≡ answer_text json r
unfolding cli_result answer_text
sent-cli_result r true = sent-status_json r
sent-cli_result r false =
    sent-append (cli_puts (reg_result_str r)) (cli_lit (codes "\r\n"))
    ∙ (λ i. sent (cli_puts (reg_result_str-text r i)) ++ sent-cli_lit (codes "\r\n") i)
    ∙ ap (λ t. t ++ codes "\r\n") (sent-cli_puts (result_text r) (length-result_text r))
