-- ===== src/Cli/Session/Runs.antt =====
-- Runs of a whole recording of src/recdyud/cli.py: a tuner of which each transfer takes a tick, a file
-- in memory, and a stop after one chunk.
use recdyud.Base.{
  ℕ, ◌+◌, ◌≡◌, refl, ap, sym, Bool, true, false, Option, none, some, List, [], ◌∷◌, ◌++◌, length,
  take, replicate, arith,
}
use mathlib.Core.Option.{some-ne-none}
use recdyud.Protocol.{Crypto}
use recdyud.Protocol
use recdyud.Device.{success, DyUd200}
use recdyud.Device.Waiting.{Clock}
use recdyud.Device.Waiting.Ends.{TimeFlows}
use recdyud.Device.Lifecycle.{Bus, Handle}
use recdyud.Device.Lifecycle.Holds.{Holding}
use recdyud.Stream.Purge.{ReadsFlow}
use recdyud.Cli.Pipeline.{Library, Pipeline}
use recdyud.Cli.Pipeline
use recdyud.Cli.Output.{Writer, Output, took}
use recdyud.Cli.Output.Whole.{Appends}
use recdyud.Cli.Session.{Args, Outside, stream, main}
use recdyud.Cli.Session.Ends.{Ends, stream-Ends}
use recdyud.Cli.Session.Released.{Clean, main-Clean}

abbrev plain_crypto : Crypto
plain_crypto = record {
  crc32 = λ bytes. 5;
  encrypt = λ key bytes. bytes;
  decrypt = λ key bytes. bytes;
  crc32-lt = λ bytes. omega arith;
  length-encrypt = λ key bytes h. refl;
  decrypt-encrypt = λ key bytes h. refl;
}

abbrev reply : List ℕ
reply = 0 ∷ 0 ∷ 0 ∷ 9 ∷ (replicate 120 0 ++ (0 ∷ 0 ∷ 0 ∷ 5 ∷ []))

-- The state is the time, whether the interface is held, and whether there are resources.
record State : Type 0 where
  time : ℕ
  held : Bool
  allocated : Bool

abbrev tick : State → State
tick u = record u { time = u.time + 1 }

abbrev bus : Bus State
bus = record {
  usb = record {
    write = λ u frame. (u, true);
    read = λ u. (tick u, some reply);
    bulk_read = λ u. (tick u, (success, replicate 188 0x47));
    clear_halt = λ u. (u, success);
  };
  clear = λ u endpoint. (u, success);
  read_from = λ u endpoint. (u, none);
  is_kernel_driver_active = λ u. (u, some false);
  detach_kernel_driver = λ u. (u, true);
  get_active_configuration = λ u. (u, some 1);
  set_configuration = λ u. (u, none);
  claim_interface = λ u. (record u { held = true; allocated = true }, none);
  release_interface = λ u. (record u { held = false }, true);
  dispose_resources = λ u. record u { allocated = false };
}

abbrev bus-Holding : Holding bus
bus-Holding = record {
  interface = λ u. u.held;
  resources = λ u. u.allocated;
  released = λ u. refl;
  disposed = λ u. refl;
  disposes = λ u e. e;
  asks = λ u e. e;
  detaches = λ u e. e;
  looks = λ u e. e;
  sets = λ u e. e;
  fails = λ u errno e h. absurd (some-ne-none errno (sym e));
}

abbrev clock : Clock State
clock = record { now = λ u. u.time; sleep = λ u n. record u { time = u.time + n } }

bus-TimeFlows : TimeFlows bus.usb clock
bus-TimeFlows = record {
  write_takes = λ u frame. omega arith;
  read_takes = λ u. omega arith;
  sleep_takes = λ u n. omega arith;
}

bus-ReadsFlow : ReadsFlow bus.usb clock
bus-ReadsFlow = record {
  takes = λ u. omega arith;
  nothing = λ u e. omega arith;
  clears = λ u. omega arith;
}

abbrev disk : Writer (List ℕ)
disk = record {
  os_write = λ f view. (f ++ view, took (length view));
  os_close = λ f. f ++ (0x1a ∷ []);
}

take_all : (xs : List ℕ) → take (length xs) xs ≡ xs
take_all [] = refl
take_all (x ∷ xs) = ap (◌∷◌ x) (take_all xs)

disk-Appends : Appends disk (λ f. f)
disk-Appends = record {
  count = λ f xs. length xs;
  takes = λ f x xs. refl;
  some_byte = λ f x xs. omega arith;
  at_most = λ f x xs. omega arith;
  appends = λ f x xs. ap (◌++◌ f) (sym (take_all (x ∷ xs)));
}

abbrev unused : Library ℕ
unused = record {
  put = λ d xs. (d, true);
  get = λ d. (d, some []);
  withdraw = λ d. (d, none);
  flush_input = λ d. (d, true);
  close = λ d. d;
}

abbrev args : Args
args = record {
  frequency_khz = some 473143;
  lock_timeout = 30;
  rectime = some 100;
  b25_timeout = 0;
  keep_null = false;
  interval = 1;
  second = 10;
  to_file = true;
}

abbrev outside : Outside
outside = record {
  stopped = false;
  turns = record { stopped = false; now = 60; chunk = some (replicate 10 0); later = 60 } ∷ [];
  drained = [];
  reader_error = false;
}

abbrev tuner : DyUd200 State
tuner = record {
  usb = record { time = 0; held = false; allocated = false };
  codec = Protocol.init;
  bcas_pcb = 0;
  ts_errors = 0;
  ts_consecutive_errors = 0;
}

abbrev output : Output (List ℕ)
output = record { file = []; bytes = 0 }

abbrev no_descrambler : Pipeline ℕ
no_descrambler = Pipeline.init none 0

stream-Ends_example :
    Ends plain_crypto bus clock unused disk
      (λ d. d)
      args
      outside
      (λ f. f)
      disk-Appends
      tuner
      473143
      no_descrambler
      output
      (stream plain_crypto bus clock unused disk
        (λ d. d)
        args
        outside
        tuner
        473143
        no_descrambler
        output)
unfolding Pipeline.init
stream-Ends_example =
    stream-Ends plain_crypto bus clock unused disk (λ d. d) args outside (λ f. f) disk-Appends
      bus-TimeFlows bus-ReadsFlow no_descrambler output refl tuner 473143 (omega arith)

abbrev device : Handle State
device = record { tuner = tuner; claimed = false; firmware = none; serial = none }

abbrev no_setup : DyUd200 State → DyUd200 State × Option (Option ℕ)
no_setup d = (d, some none)

main-Clean_example : Clean bus-Holding disk args (some output) (
    main plain_crypto bus clock unused disk
      (λ d. d)
      args
      outside
      no_setup
      (device ∷ [])
      (some output))
main-Clean_example =
    main-Clean plain_crypto bus clock unused disk (λ d. d) args outside bus-Holding no_setup
      (device ∷ []) (some output) ((refl, refl, refl), tt)
