-- ===== src/Cli/Identity.antt =====
-- The commands `id`, `fetch` and `help` of src/regtable_cli.c, which touch no register.
use regtable.Prelude.{◌+◌, ◌-◌, ◌/◌, Bool, Option, none, some, [], ◌∷◌, ◌++◌, if◌then◌else◌}
use regtable.Prelude.{length, take, replicate, codes, ◌>>=◌}
use regtable.Core.Types.{Text, RegTable, RegIdentity}
use regtable.Core.Schema.{reg_table_schema}
use regtable.Core.Text.{format_lu}
use regtable.Core.Format.{Build, regtable_version, format_x}
use regtable.Cli.Output.{Writes, cli_puts, cli_lit, cli_print, json_str, json_lit}

-- A field of the identity, as JSON; a string that is absent is left out.
abbrev pub id_json : Text → Option Text → Writes
id_json key none = []
id_json key (some value) = cli_lit key ++ json_str value ++ cli_lit (codes ",")

abbrev pub id_text : Text → Option Text → Writes
id_text key none = []
id_text key (some value) = cli_lit key ++ cli_puts value ++ cli_lit (codes "\r\n")

abbrev pub compiler_json : Option Text → Writes
compiler_json none = []
compiler_json (some version) = cli_lit (codes ",\"compiler\":") ++ json_lit version

abbrev pub compiler_text : Option Text → Writes
compiler_text none = []
compiler_text (some version) = cli_lit (codes "compiler  " ++ version ++ codes "\r\n")

-- The schema, as eight digits.
abbrev pub schema_text : RegTable → Text
schema_text t = format_x 8 (reg_table_schema (some t))

unfoldable pub cmd_id : Build → RegTable → Option RegIdentity → Bool → Writes
unfolding cli_puts cli_lit cli_print json_str json_lit reg_table_schema format_x codes
cmd_id b t id json =
    let device = id >>= (λ i. i.device) in
    let fw = id >>= (λ i. i.fw) in
    let hash = id >>= (λ i. i.hash) in
    let chip = id >>= (λ i. i.chip) in
    if json
    then (cli_lit (codes "{")
        ++ id_json (codes "\"device\":") device
        ++ id_json (codes "\"fw\":") fw
        ++ id_json (codes "\"hash\":") hash
        ++ id_json (codes "\"chip\":") chip
        ++ cli_lit (codes "\"built\":")
        ++ json_lit b.built
        ++ compiler_json b.compiler
        ++ cli_lit (codes ",\"regtable\":\"" ++ regtable_version ++ codes "\"")
        ++ cli_print (codes ",\"regs\":" ++ format_lu t.count)
        ++ cli_lit (codes ",\"schema\":\"")
        ++ cli_puts (schema_text t)
        ++ cli_lit (codes "\"}\r\n"))
    else (id_text (codes "device    ") device
        ++ id_text (codes "fw        ") fw
        ++ id_text (codes "hash      ") hash
        ++ id_text (codes "chip      ") chip
        ++ cli_lit (codes "built     " ++ b.built ++ codes "\r\n")
        ++ compiler_text b.compiler
        ++ cli_lit (codes "regtable  " ++ regtable_version ++ codes "\r\n")
        ++ cli_print (codes "regs      " ++ format_lu t.count ++ codes "\r\n")
        ++ cli_lit (codes "schema    ")
        ++ cli_puts (schema_text t)
        ++ cli_lit (codes "\r\n"))

-- The version, in the middle of the 21 columns of the die.
abbrev pub die_text : Text → Text
die_text version =
    let ver = take 21 version in
    let left = (21 - length ver + 1) / 2 in
    replicate left 32 ++ ver ++ replicate (21 - left - length ver) 32

unfoldable pub cmd_fetch : Build → RegTable → Option RegIdentity → Bool → Writes
unfolding cmd_id cli_lit cli_puts codes
cmd_fetch b t id json =
    if json
    then cmd_id b t id json
    else cli_lit (
        codes "\r\n"
        ++ codes "           | | | | | | | | |\r\n"
        ++ codes "        +--+-+-+-+-+-+-+-+-+--+\r\n"
        ++ codes "    ----| o                   |----\r\n"
        ++ codes "    ----|       regtable      |----\r\n"
        ++ codes "    ----|")
      ++ cli_puts (die_text (b'v' ∷ regtable_version))
      ++ cli_lit (
          codes "|----\r\n"
          ++ codes "    ----|                     |----\r\n"
          ++ codes "        +--+-+-+-+-+-+-+-+-+--+\r\n"
          ++ codes "           | | | | | | | | |\r\n"
          ++ codes "\r\n")
      ++ cmd_id b t id json

unfoldable pub cmd_help : Writes
unfolding cli_lit codes
cmd_help = cli_lit (
    codes "COMMANDS:\r\n"
    ++ codes "  get <name>          read register value\r\n"
    ++ codes "  set <name> <value>  write register value\r\n"
    ++ codes "  info <name>         show register metadata\r\n"
    ++ codes "  list                show all registers\r\n"
    ++ codes "  id                  show device identity\r\n"
    ++ codes "  fetch               show the device as a chip\r\n"
    ++ codes "  help                show this message\r\n"
    ++ codes "  add --json to list/get/set/info/id for machine-readable output\r\n")
