-- ===== src/Cli/Examples.antt =====
-- Runs of the serial adapter, and its theorems at the small table of Core/Examples.
use regtable.Prelude.{
  Bool, not, ◌&&◌, ◌||◌, ◌==◌, ◌⊎◌, ◌≡◌, refl, arith, codes, replicate, false, true,
}
use regtable.Prelude.{none, some, List, [], ◌∷◌, ◌++◌}
use regtable.Core.Types.{Text}
use regtable.Core.Memory.{load_raw}
use regtable.Core.Raw.{reg_get_raw}
use regtable.Core.Table.{str_eq, reg_find}
use regtable.Core.Text.{reg_set_str, reg_get_str}
use regtable.Core.Text.Examples.{libc}
use regtable.Core.Examples.{table, temp_ref, fresh}
use regtable.Core.Format.{Build, format_x}
use regtable.Core.Json.{unquote}
use regtable.Mqtt.Appender.{ap_json_str}
use regtable.Mqtt.Meta.{empty}
use regtable.Cli.Output.Json.{unquote-json_str, ap_json_str-json_str}
use regtable.Cli.Output.{sent, json_str, cli_lit, cli_puts}
use regtable.Cli.Split.{cli_split}
use regtable.Cli.Split.Laws.{
  AreWords, laid_out, words_of, plain_words, has_flag, described, cli_split-laid_out,
}
use regtable.Cli.Commands.{cmd_get}
use regtable.Cli.Process.{Served, cli_process}
use regtable.Cli.Process.Answer.{answer_text}
use regtable.Cli.Process.Set.{feed_all-set}
use regtable.Cli.Process.Safe.{IsSetLine, cli_process_keeps}
use regtable.Cli.Feed.{RegCli, regcli_init, regcli_feed}
use regtable.Cli.Feed.Editor.{IsCli, regcli_feed-IsCli}
use regtable.Cli.Feed.Refine.{
  line_of, empty_line, served_by, spec_feed, seen, after_echo, regcli_feed-spec_feed,
}
use regtable.Cli.Feed.Typing.{AllChars}
use regtable.Cli.Feed.Lines.{feed_all, IsQuiet}

abbrev build : Build
build = record { built = codes "today"; compiler = none }

abbrev served : Served
served = record { table = table; identity = none }

-- A session in cleared memory; it echoes.
abbrev session : RegCli
session =
    regcli_init
      (record {
        table = table;
        buf = replicate 128 0;
        pos = 0;
        echo = false;
        overflow = false;
        identity = none;
      })
      table

abbrev quiet_session : RegCli
quiet_session = record session { echo = false }

-- "set t 42", with a flag.
abbrev words : List (Text × Text)
words =
    (codes "set", codes " ")
    ∷ (codes "--json", codes "  ")
    ∷ (codes "t", codes " ")
    ∷ (codes "42", [])
    ∷ []

-- The bytes of a typed text, tested.
abbrev all_chars : Text → Bool
all_chars [] = true
all_chars (x ∷ s) =
    not (x == b'\n' || x == b'\r') && not (x == 8 || x == 0x7F) && not (x == 0) && all_chars s

tested-AllChars : (s : Text) → all_chars s ≡ true → AllChars s
tested-AllChars [] h = tt
tested-AllChars (x ∷ s) h = ground (arith, tested-AllChars s)

two_words : (cli_split (codes " get  t ")).argv ≡ codes "get" ∷ codes "t" ∷ []
unfolding cli_split codes str_eq
two_words = refl

got : sent (cli_process libc build served (codes "get t") fresh).0 ≡ codes "0\r\n"
unfolding cli_process cmd_get reg_get_str cli_puts cli_lit reg_find reg_get_raw codes sent load_raw
got = refl

words-AreWords : AreWords words
unfolding codes
words-AreWords = ground arith

session-IsCli : IsCli session
session-IsCli = record { full = refl; room = ground arith }

quiet_session-IsQuiet : IsQuiet libc build served quiet_session
quiet_session-IsQuiet = record {
  ok = record { full = refl; room = ground arith };
  quiet = refl;
  same = refl;
}

regcli_feed-IsCli_example : IsCli (regcli_feed libc build session b's' fresh).1
regcli_feed-IsCli_example = regcli_feed-IsCli libc build session b's' fresh session-IsCli

regcli_feed-spec_feed_example :
    seen (regcli_feed libc build session b's' fresh)
    ≡ after_echo true b's'
        (spec_feed libc build (served_by session) true (line_of session) b's' fresh)
regcli_feed-spec_feed_example = regcli_feed-spec_feed libc build session fresh session-IsCli b's'

cli_split-laid_out_example : cli_split (codes " " ++ laid_out words) ≡ described (words_of words)
unfolding codes
cli_split-laid_out_example = cli_split-laid_out (codes " ") words (ground arith) words-AreWords

feed_all-set_example :
    let (res, d') = reg_set_str libc (some table) temp_ref (codes "42") fresh in
    let (out, line, after) =
      seen
        (feed_all libc build quiet_session ((codes " " ++ laid_out words) ++ (b'\n' ∷ [])) fresh) in
    (sent out ≡ answer_text (has_flag (words_of words)) res) × (line ≡ empty_line) × (after ≡ d')
unfolding codes plain_words reg_find
feed_all-set_example =
    feed_all-set libc build served quiet_session (codes " ") words (codes "t") (codes "42") temp_ref
      fresh quiet_session-IsQuiet refl (tested-AllChars (codes " " ++ laid_out words) refl)
      (ground arith) (ground arith) (ground arith) words-AreWords refl refl

cli_process_keeps_example :
    IsSetLine (cli_split (codes "get t")).argv
    ⊎ ((cli_process libc build served (codes "get t") fresh).1 ≡ fresh)
cli_process_keeps_example =
    cli_process_keeps libc build served (codes "get t") fresh (refl, (refl, (refl, tt)))

-- "a\"b", a line feed, and a control byte
abbrev hard_text : Text
hard_text = codes "a\"b\n" ++ (1 ∷ [])

unquote-json_str_example :
    unquote (sent (json_str hard_text) ++ codes ",1") ≡ some (hard_text, codes ",1")
unfolding codes
unquote-json_str_example = unquote-json_str hard_text (codes ",1") (ground arith) (ground arith)

appended : (ap_json_str (empty 20) hard_text).overflow ≡ false
unfolding ap_json_str format_x codes
appended = refl

ap_json_str-json_str_example :
    (ap_json_str (empty 20) hard_text).text ≡ [] ++ sent (json_str hard_text)
unfolding codes
ap_json_str-json_str_example =
    ap_json_str-json_str (empty 20) hard_text (omega arith) (ground arith) appended
