-- ===== src/Cli/Feed.antt =====
-- The public functions of src/regtable_cli.c: `regcli_init`, `regcli_set_identity`, and
-- `regcli_feed`, the line editor.
pub mod Access
pub mod Editor
pub mod Refine
pub mod Typing
pub mod Lines
use regtable.Prelude.{
  ℕ, ◌+◌, ◌-◌, ◌%◌, ◌^◌, Bool, true, false, ◌||◌, ltb, ◌==◌, if◌then◌else◌, codes,
}
use regtable.Prelude.{Option, none, some, List, [], ◌∷◌, ◌++◌, length, take, drop, set, replicate}
use regtable.Core.Types.{Text, Device, RegTable, RegIdentity}
use regtable.Core.Text.{Libc}
use regtable.Core.Format.{Build}
use regtable.Cli.Output.{Writes, cli_lit}
use regtable.Cli.Split.{cut_line}
use regtable.Cli.Process.{Served, cli_process}

-- REGTABLE_CLI_BUF_SIZE, at its default
abbrev pub buf_size : ℕ
buf_size = 128

-- `RegCli`. The transport `tx` is not a field: what goes to `tx.write` is returned.
pub record RegCli : Type 0 where
  pub table : RegTable
  pub buf : List ℕ
  pub pos : ℕ
  pub echo : Bool
  pub overflow : Bool
  pub identity : Option RegIdentity

-- The session is set up in memory that held `old`; `buf` is left as it was.
abbrev pub regcli_init : RegCli → RegTable → RegCli
regcli_init old t = record old {
  table = t;
  pos = 0;
  echo = true;
  overflow = false;
  identity = none;
}

abbrev pub regcli_set_identity : RegCli → Option RegIdentity → RegCli
regcli_set_identity cli id = record cli { identity = id }

-- The C string at the start of an array: the bytes before the first NUL.
pub c_string : List ℕ → Text
c_string [] = []
c_string (c ∷ s) = if c == 0 then [] else c ∷ c_string s

-- What an echoing session writes.
abbrev pub echoed : Bool → Writes → Writes
echoed echo ws = if echo then ws else []

-- The line is processed in place: it is cut up in `buf`.
pub run_line : Libc → Build → RegCli → Device → Writes × RegCli × Device
unfolding c_string cli_process cut_line cli_lit codes
run_line c b cli d =
    let buf = set cli.buf cli.pos 0 in
    let line = c_string buf in
    let (ws, d') = cli_process c b (record { table = cli.table; identity = cli.identity }) line d in
    (
      echoed cli.echo (cli_lit (codes "\r\n")) ++ ws,
      record cli { buf = cut_line line false ++ drop (length line) buf; pos = 0 },
      d',
    )

pub end_line : Libc → Build → RegCli → Device → Writes × RegCli × Device
unfolding run_line cli_lit codes
end_line c b cli d =
    if cli.overflow
    then (
      echoed cli.echo (cli_lit (codes "\r\n")) ++ cli_lit (codes "ERR: line too long\r\n"),
      record cli { overflow = false; pos = 0 },
      d,
    )
    else if ltb 0 cli.pos
    then run_line c b cli d
    else ([], cli, d)

pub erase_char : RegCli → Writes × RegCli
unfolding cli_lit codes
erase_char cli =
    if ltb 0 cli.pos
    then (echoed cli.echo (cli_lit (codes "\u{8} \u{8}")), record cli { pos = cli.pos - 1 })
    else ([], cli)

pub keep_char : RegCli → ℕ → RegCli
keep_char cli byte =
    if ltb cli.pos (buf_size - 1)
    then record cli { buf = set cli.buf cli.pos byte; pos = (cli.pos + 1) % 2 ^ 16 }
    else record cli { overflow = true }

-- `regcli_feed` behind the echo of the byte.
pub feed_byte : Libc → Build → RegCli → ℕ → Device → Writes × RegCli × Device
unfolding end_line erase_char keep_char
feed_byte c b cli byte d =
    if byte == b'\n' || byte == b'\r'
    then end_line c b cli d
    else if byte == 8 || byte == 0x7F
    then (let (ws, cli') = erase_char cli in (ws, cli', d))
    else ([], keep_char cli byte, d)

unfoldable pub regcli_feed : Libc → Build → RegCli → ℕ → Device → Writes × RegCli × Device
unfolding feed_byte
regcli_feed c b cli byte d =
    let (ws, cli', d') = feed_byte c b cli byte d in
    (echoed cli.echo ((byte ∷ []) ∷ []) ++ ws, cli', d')
