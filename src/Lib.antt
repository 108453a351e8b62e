-- ===== src/Lib.antt =====
-- regtable: the register table of a microcontroller, behind one typed access path, with a Modbus
-- adapter, a serial command line and an MQTT adapter. This library models the C code of `src/`
-- function by function and proves what makes it correct.
--
-- The parts, and how they interact:
-- - The core (`src/regtable_core.h`, `src/regtable_core.c`; Core.antt and its modules). A table is
--   an array of entries, each of which describes one variable of the application. `reg_set_raw` is
--   the one way to write, `reg_get_raw` the one way to read. A write that changes a value sets the
--   entry's bit in a bitmap, from which `reg_poll` later runs the hooks.
-- - The Modbus adapter (`src/regtable_modbus.h`, `src/regtable_modbus.c`; Modbus.antt and its
--   modules). It finds the entries of a request by their word address, moves values between the
--   wire and the core, and wraps the reply for RTU or TCP. It keeps no state but its settings.
-- - The serial command line (`src/regtable_cli.h`, `src/regtable_cli.c`; Cli.antt and its modules).
--   A session collects the bytes that arrive, and runs a line when it ends: it is cut into words,
--   the first of which names a command, and the command reads or writes the table and answers, as
--   text or as JSON.
-- - The MQTT adapter (`src/regtable_mqtt.h`, `src/regtable_mqtt.c`; Mqtt.antt and its modules). A
--   message writes to the entry that its topic names. A poll reads every entry and publishes those
--   whose value is not the one last published, which the adapter keeps.
-- - The Modbus TCP slave (`example_modbus_tcp.c`; TcpServer.antt and its modules), all but its
--   sockets. It cuts the stream of bytes into ADUs by the length in their header, and sends the
--   replies of the Modbus adapter.
-- - The command line on the desktop (`example_desktop.c`; Desktop.antt and its modules): eight
--   registers behind the serial command line on a terminal, with a temperature that drifts and a
--   pump that is not to run when it is hot.
-- - The MQTT demo on the desktop (`example_mqtt_desktop.c`; MqttDemo.antt and its modules): four
--   registers behind the MQTT adapter, with a terminal in place of the broker, from which each line
--   is a message and to which each publish is printed.
-- - The command line over a generated table (`tools/gen_cli.c`; GenCli.antt and its modules), with
--   the table as an argument.
--
-- Where each function is modelled:
-- - Core/Types: `RegType`, `RegPerm`, `RegResult`, `RegEntry`, `RegTable`, and the `Device`.
-- - Core/Memory: `load_raw`, `store_raw`. Core/Memory/Laws has their laws.
-- - Core/Dirty: `reg_mark_dirty`, `reg_poll`. Core/Dirty/Laws says what a bitmap is, and
--   Core/Dirty/Poll what a poll does.
-- - Core/Float: `isnan`, `isinf` and `<` of a single, on its bits.
-- - Core/Raw: `reg_set_raw`, `reg_get_raw`. Core/Raw/Check is about when a write is accepted,
--   Core/Raw/Effect about what it changes.
-- - Core/Text: `reg_raw_str`, `reg_get_str`, `reg_set_str` and their parsers. Core/Text/Digits is
--   about decimal text, Core/Text/Laws about printing and parsing, Core/Text/Prefix about `0x`.
-- - Core/Table: `reg_table_init`, `reg_find`. Core/Schema: `reg_table_schema`.
-- - Modbus/Crc: `regmb_crc16`. Modbus/Map: `entry_words`, `entry_at`, `span_covered`, `regmb_init`.
--   Modbus/Words: `raw_to_words`, `words_to_raw`. Modbus/Pdu: the request handlers and
--   `pdu_handle`; its Loops and Replies are about every request, Values about what a read returns.
--   Modbus/Frame: `regmb_process`, `regmb_process_tcp`; its Response and Tcp are about every frame,
--   Corrupt about damaged ones.
-- - Core/Names: `reg_type_str`, `reg_result_str`. Core/Format: the formats of the C library that
--   only the adapters use.
-- - Cli/Output: the output helpers, JSON included; its Json is about the strings that they send.
--   Cli/Split: `cli_split`; its Laws are about lines given as words. Cli/Commands: `cmd_list`,
--   `cmd_get`, `cmd_set`, `cmd_info`. Cli/Identity: `cmd_id`, `cmd_fetch`, `cmd_help`. Cli/Process:
--   `cli_process`; its Set and Safe are about what writes to a register, Answer about the answers. Cli/Feed: `regcli_init`,
--   `regcli_set_identity`, `regcli_feed`; its Editor is about the buffer, Refine about the line
--   that is typed, Typing and Lines about whole lines.
-- - Mqtt/Handle: `regmqtt_handle`. Mqtt/Handle/Laws says on which topics it acts, and how.
--   Mqtt/Poll: `regmqtt_poll`, `regmqtt_publish_all`. Mqtt/Poll/Marks and
--   Mqtt/Poll/Messages say, apart from the code, which entries are marked in sync and which messages
--   are due, Mqtt/Poll/Sent is about the loop, Mqtt/Poll/State about the entries in sync,
--   Mqtt/Poll/Converge and Mqtt/Poll/Full about what polls achieve. Mqtt/Appender: `Appender` and
--   the functions on it. Mqtt/Meta: `meta_body`, `meta_fits`, `id_payload`; its Texts have the
--   payloads as plain texts, its Laws and Identity are about what is appended. Mqtt/Init:
--   `regmqtt_init`, `regmqtt_set_identity`; its Accept says which tables are accepted.
--   Mqtt/Announce: `regmqtt_announce`; its Laws have the messages.
-- - TcpServer: `read_exact`, `send_all`, `read_adu` and the inner loop of `main`. TcpServer/Stream
--   says what a socket does, TcpServer/Serve is about one connection. TcpServer/Demo: the registers
--   and the rest of `main`, which TcpServer/Connections is about; TcpServer/Safety and
--   TcpServer/Valid are about any peer.
-- - Desktop/Registers: the registers of `example_desktop.c` and their hooks; Desktop: its `main`.
--   Desktop/Hooks is about what the hooks and the loop keep, Desktop/Safety and Desktop/Interlock
--   about what is typed.
-- - GenCli: `main` of `tools/gen_cli.c`. GenCli/Equivalent compares it with the events of System.
-- - MqttDemo: the registers and `main` of `example_mqtt_desktop.c`. MqttDemo/Current,
--   Heard and Topics are about what it has published.
-- - Core/Access says what an access of the core is; the modules Access beside the functions of the
--   adapters are about the accesses of each. Core/Access/Keeps and Core/Access/Hooks are about
--   what accesses and hooks keep, Core/Access/Sound about the values of the variables. System: one
--   table behind all the adapters, and the calls of the main loop as a list of events; System/Run
--   is about such lists, System/Outcome about a write and the poll after it.
-- - Core/Json: JSON strings as texts, and a reader of them, with which the output of the adapters
--   is compared.
-- - Core/Examples, Core/Text/Examples, Cli/Examples, Modbus/Examples, Mqtt/Examples,
--   Mqtt/Announce/Examples, TcpServer/Examples, System/Examples, Desktop/Examples,
--   MqttDemo/Examples and GenCli/Examples run the code on a small table.
-- - Prelude: names of the standard library, tests and lists over the native numbers, and the laws
--   of the bitwise operations.
--
-- How the state is modelled. `Device` is all that the code changes: the bytes of the memory in
-- which the variables lie, low byte first, and the words of the bitmap. Every function that changes
-- it takes it and returns it. The memory outside the variables (the entries, the names, a frame)
-- does not change, and is data: an entry is a record, a text is the list of its bytes before the
-- NUL, a table is the list of the entries before the one with no name, with the address of the
-- first. A hook is an arbitrary function of the device, so nothing is assumed of the application
-- unless a theorem says so. A word of `w` bits is a natural number, with the reduction modulo 2 ^ w
-- written out where the C code converts; a value of an unsigned type that a theorem takes is
-- bounded by a hypothesis. A float is its bit pattern.
--
-- The transport of the command line is not part of its session: the calls of `tx.write` are
-- returned, as a list of the bytes of each call. What such a call returns is not read by the code
-- either. The literals, which an AVR keeps in flash, are plain texts. The texts that the compiler
-- makes (the date, its version) are an argument, `Build`. The line buffer has 128 bytes and a line
-- four words, the defaults.
--
-- The publish function of an MQTT client is an argument, a function of a state of its own, which
-- may refuse a message; it does not change the device.
--
-- The adapters run in one loop, as the README asks: a sequence of their calls is a list of events, in
-- any order, each of which is carried out before the next.
--
-- A response buffer is its room, a number, and the bytes written to it, a list. A frame is a list,
-- and a read outside it, or through a NULL entry, is `none`.
--
-- The loops over words of the Modbus adapter take a word or two in each round. They run on fuel,
-- one round for each word and one for the last test; `span_covered` returns what the loop of the
-- source returns since that is enough, and the loops of the handlers never run out of it.
--
-- The C library. `strtoul` and the formats of integers are modelled as far as the code uses them,
-- in the C locale. `strtod`, the formats `%.6g` and `%.9g` and the size of a long are a parameter,
-- `Libc`:
-- theorems assume at most that a `float` has 32 bits and that a long has 32 bits or more.
--
-- An `Appender` is its text, which the C buffer holds before the NUL; the length of the text is
-- `len`. The sizes of topics and payloads are the defaults, 64 and 160.
--
-- A socket is an argument, `Socket`: `recv` and `send` as functions of a state of its own. The
-- loops over the bytes of one call run on fuel, one round for each byte; the loop over a connection
-- runs for a number of rounds that is an argument. Of some sockets it is assumed only that they
-- receive bytes (`ReceivesBytes`), of others `IsStream`: while the peer has sent bytes, `recv` returns
-- the next of them, one at least, then none; `send` takes one at least.
--
-- The variables of the TCP slave lie where a `Layout` says; its clock is an argument. What it
-- prints is left out, and the connections that it accepts are a list. So do the variables of the
-- other two examples; their sums of floats are parameters, their input is a list of bytes, and what
-- their hooks print is left out. The loop of the MQTT demo runs on fuel, one turn for each byte of
-- input and one more, since each line has a byte or more.
--
-- Not modelled: the set-up of the listening socket; the other examples with the vendored drivers,
-- the tests, the generator and the web panel, which use the library or stand beside it. Two
-- accesses to a hardware register between which the hardware changes it are not modelled: the
-- memory changes only by the code and its hooks.
pub mod Prelude
pub mod Core
pub mod Modbus
pub mod Mqtt
pub mod Cli
pub mod TcpServer
pub mod System
pub mod Desktop
pub mod MqttDemo
pub mod GenCli
