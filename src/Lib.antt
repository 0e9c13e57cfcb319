-- ===== src/Lib.antt =====
-- A model of recdyud, a command that receives ISDB-T with a DY-UD200 tuner, and its theorems.
--
-- The program. src/recdyud/cli.py tunes the device (device.py), reads its stream, and passes each
-- chunk through four stages: `PacketAligner` and `TsAnalyzer` (ts.py), `drop_null_packets` and
-- `Pipeline` (cli.py), which descrambles with the B-CAS card in the tuner (bcas.py), over the
-- tuner's own encrypted commands (protocol.py). The diagnostics collect the tables of programs and
-- services (ts.py), whose names are ARIB STD-B24 strings (aribstr.py).
--
-- The files.
--   Base          shared names: Boolean tests, lists over the native numbers, bytes, bit operations
--   Ts            src/recdyud/ts.py: the constants, and below it
--   Ts/Aligner    `_find_sync` and `PacketAligner`
--   Ts/Analyzer   `TsCounters` and `TsAnalyzer`
--   Ts/Crc        `_CRC_TABLE` and `crc32_mpeg2`
--   Ts/Section    `SectionAssembler`
--   Ts/Psi        `_descriptors`, `TransportInfo`, `parse_pat`, `parse_sdt` and `parse_nit`
--   Ts/Si         `SiCollector`
--   Aribstr       src/recdyud/aribstr.py: `decode`
--   Protocol      src/recdyud/protocol.py: `CommandCodec` and `t1_block`
--   Bcas          src/recdyud/bcas.py: the answers of the card and `BCasCard`
--   B25           src/recdyud/b25.py: `Descrambler`, its callbacks and handles
--   Text          the functions on text that the command line's arguments go through
--   Device        src/recdyud/device.py: `DyUd200`, its commands, card transport and stream reads;
--                 `_claim`, `initialize`, `close` and `open_device` in Device/Lifecycle;
--                 `wait_lock` in Device/Waiting; `enumerate_devices` and `_select` in Device/Select;
--                 the tuner's side of the card transport, which the proofs put against it, in
--                 Device/Reader
--   Channels      src/recdyud/channels.py: the frequency tables; `parse_channel` in Channels/Parse,
--                 `expand_channel_ranges` in Channels/Ranges
--   Stream        src/recdyud/stream.py: the thread `TsReader`; `purge` in Stream/Purge
--   Cli           src/recdyud/cli.py: `drop_null_packets`; `Pipeline` in Cli/Pipeline, `Output` in
--                 Cli/Output, `setup_descrambler` in Cli/Setup, `stream` from its loop on in
--                 Cli/Recorder, and what is around it, `record` and `main`, in Cli/Session
--   Diag          src/recdyud/diag.py: `_verdict` and the loop of `cmd_monitor`; `scan_channel` and
--                 `cmd_scan` in Diag/Scan
-- A file has its definitions; its child modules have the proofs, and its Runs the tests.
--
-- The correspondence. A byte string is a list of numbers, a character its code point, an object a
-- record that a method takes and returns; an exception is a value. A counter or index of -1 is
-- `none`. Where an index is always within the data, the model reads with a default; where it may
-- not be, the model has an error there. A dict is a list of its items or a function.
--
-- Loops. Structural on the number of rounds where the code has a `for`; elsewhere on fuel: the
-- length of the data for `_find_sync`, `_drain`, `decode`, `_descriptors` and the table loops,
-- each of whose rounds moves on by a byte at least; the length plus one for `feed`, of which a
-- round may only find the lock. A wait has a round for each tick until its deadline, `purge` as many
-- as the bytes and ticks it has left and one more, `Output.write` one for each byte, a scan one for
-- each tick of its dwell time. Main loops and reader are lists of turns and steps. Running out of
-- fuel is `none` where the result could be mistaken.
--
-- Parameters. AES in ECB mode and `zlib.crc32` (Crypto), the codec euc_jis_2004, the USB library
-- (Usb and Bus), the clock (Clock), `os.write` and `os.close` (Writer), the C library behind src/recdyud/b25.py
-- (Native) and the card's transport (Transport) are arguments. A call of the C library is a script
-- of its calls back. Above it stand interfaces of the model: the card of a descrambler (Card), and
-- the descrambler of a pipeline (Library). What the code relies on is stated
-- with them, as a field or as a hypothesis.
--
-- Threads and time. A step of the reading thread is a round of its loop up to the read or from it
-- on, or a statement of its handler; the steps of the consumer come between these in any order. Times
-- are ticks of a clock, which is a
-- parameter where the code waits.
--
-- Not modelled: the argument types of the ctypes binding and the USB binding, argument parsing,
-- logging, text formatting and the delivery of signals; in src/recdyud/diag.py the list and the
-- info; src/recdyud/nativelib.py; characters beyond ASCII in the names of channels and devices. In
-- the model of `record` as a whole the setup of the descrambler is a parameter, and the commands that
-- the descrambler sends to the tuner do not come between the reads of the stream.
pub mod Aribstr
pub mod B25
pub mod Base
pub mod Bcas
pub mod Channels
pub mod Cli
pub mod Device
pub mod Diag
pub mod Protocol
pub mod Stream
pub mod Text
pub mod Ts
