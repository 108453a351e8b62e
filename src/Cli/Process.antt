-- ===== src/Cli/Process.antt =====
-- `cli_process` of src/regtable_cli.c: one line, from its tokens to the command.
pub mod Answer
pub mod Access
pub mod Set
pub mod Safe
use regtable.Prelude.{ℕ, Bool, not, ◌&&◌, ◌==◌, if◌then◌else◌, codes}
use regtable.Prelude.{Option, none, some, List, [], ◌∷◌, length, get_or}
use regtable.Core.Types.{Text, Device, RegTable, RegIdentity}
use regtable.Core.Table.{str_eq}
use regtable.Core.Text.{Libc}
use regtable.Core.Format.{Build}
use regtable.Cli.Output.{Writes, cli_error}
use regtable.Cli.Split.{Split, cli_split}
use regtable.Cli.Commands.{cmd_list, cmd_get, cmd_set, cmd_info}
use regtable.Cli.Identity.{cmd_id, cmd_fetch, cmd_help}

-- The commands, in the order of the table `cmds`.
pub data Command : Type 0 where
  list get set info id fetch help : Command

-- A row of `cmds`; its place in the table is the case of the switch.
pub record Row : Type 0 where
  pub name : Text
  pub argc : ℕ
  pub usage : Text
  pub command : Command

unfoldable pub cmds : List Row
unfolding codes
cmds =
    record { name = codes "list"; argc = 1; usage = codes "ERR: usage: list"; command = list }
    ∷ record { name = codes "get"; argc = 2; usage = codes "ERR: usage: get <name>"; command = get }
    ∷ record {
      name = codes "set";
      argc = 3;
      usage = codes "ERR: usage: set <name> <value>";
      command = set;
    }
    ∷ record {
      name = codes "info";
      argc = 2;
      usage = codes "ERR: usage: info <name>";
      command = info;
    }
    ∷ record { name = codes "id"; argc = 1; usage = codes "ERR: usage: id"; command = id }
    ∷ record { name = codes "fetch"; argc = 1; usage = codes "ERR: usage: fetch"; command = fetch }
    ∷ record { name = codes "help"; argc = 1; usage = codes "ERR: usage: help"; command = help }
    ∷ []

-- The loop over `cmds`: the first row with the name.
pub find_row : List Row → Text → Option Row
find_row [] name = none
find_row (r ∷ rs) name = if str_eq name r.name then some r else find_row rs name

-- The fields of the session that a command reads.
pub record Served : Type 0 where
  pub table : RegTable
  pub identity : Option RegIdentity

-- The switch. The count of `argv` is that of the command.
pub run_command : Libc → Build → Served → Command → List Text → Bool → Device → Writes × Device
unfolding cmd_list cmd_get cmd_set cmd_info cmd_id cmd_fetch cmd_help
run_command c b s list argv json d = cmd_list c s.table json d
run_command c b s get argv json d = cmd_get c s.table (get_or argv 1 []) json d
run_command c b s set argv json d = cmd_set c s.table (get_or argv 1 []) (get_or argv 2 []) json d
run_command c b s info argv json d = cmd_info c s.table (get_or argv 1 []) json d
run_command c b s id argv json d = (cmd_id b s.table s.identity json, d)
run_command c b s fetch argv json d = (cmd_fetch b s.table s.identity json, d)
run_command c b s help argv json d = (cmd_help, d)

-- A row that was found, or none.
pub run_row : Libc → Build → Served → List Text → Bool → Device → Option Row → Writes × Device
unfolding run_command cli_error codes
run_row c b s argv json d none = (cli_error (codes "ERR: unknown command. type 'help'") json, d)
run_row c b s argv json d (some r) =
    if not (length argv == r.argc)
    then (cli_error r.usage json, d)
    else run_command c b s r.command argv json d

-- The tokens of a line.
pub run_split : Libc → Build → Served → Split → Device → Writes × Device
unfolding run_row cli_error find_row cmds codes
run_split c b s line d =
    if not line.too_many && length line.argv == 0
    then ([], d)
    else if line.too_many
    then (cli_error (codes "ERR: too many arguments") line.json, d)
    else run_row c b s line.argv line.json d (find_row cmds (get_or line.argv 0 []))

unfoldable pub cli_process : Libc → Build → Served → Text → Device → Writes × Device
unfolding run_split cli_split
cli_process c b s line d = run_split c b s (cli_split line) d
