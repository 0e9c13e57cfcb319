-- ===== src/Diag/Scan/Runs.antt =====
-- Runs of a scan of src/recdyud/diag.py over a tuner of which each transfer takes a tick.
use recdyud.Base.{
  ℕ, ◌+◌, refl, sym, true, false, Bool, Option, none, some, List, [], ◌∷◌, ◌++◌, All, replicate,
  leb, arith,
}
use mathlib.Core.Option.{some-ne-none}
use recdyud.Protocol.{Crypto}
use recdyud.Protocol
use recdyud.Channels.Parse.{Channel, int_of}
use recdyud.Device.{success, DyUd200}
use recdyud.Device.Waiting.{Clock}
use recdyud.Device.Waiting.Ends.{TimeFlows}
use recdyud.Device.Lifecycle.{Bus, Handle}
use recdyud.Device.Lifecycle.Holds.{IsFree, Holding}
use recdyud.Diag.Scan.{ScanArgs, scan_all, cmd_scan}
use recdyud.Diag.Scan.Ticks.{ReadsTick}
use recdyud.Diag.Scan.Returns.{Returns}
use recdyud.Diag.Scan.Ends.{Follows, scan_all-Follows}
use recdyud.Diag.Scan.Released.{cmd_scan-IsFree}

abbrev plain_crypto : Crypto
plain_crypto = record {
  crc32 = λ bytes. 5;
  encrypt = λ key bytes. bytes;
  decrypt = λ key bytes. bytes;
  crc32-lt = λ bytes. omega arith;
  length-encrypt = λ key bytes h. refl;
  decrypt-encrypt = λ key bytes h. refl;
}

abbrev reply : List ℕ
reply = 0 ∷ 0 ∷ 0 ∷ 9 ∷ (replicate 120 0 ++ (0 ∷ 0 ∷ 0 ∷ 5 ∷ []))

-- The state is the time, whether the interface is held, and whether there are resources.
record State : Type 0 where
  time : ℕ
  held : Bool
  allocated : Bool

abbrev tick : State → State
tick u = record u { time = u.time + 1 }

abbrev bus : Bus State
bus = record {
  usb = record {
    write = λ u frame. (u, true);
    read = λ u. (tick u, some reply);
    bulk_read = λ u. (tick u, (success, replicate 188 0x47));
    clear_halt = λ u. (u, success);
  };
  clear = λ u endpoint. (u, success);
  read_from = λ u endpoint. (u, none);
  is_kernel_driver_active = λ u. (u, some false);
  detach_kernel_driver = λ u. (u, true);
  get_active_configuration = λ u. (u, some 1);
  set_configuration = λ u. (u, none);
  claim_interface = λ u. (record u { held = true; allocated = true }, none);
  release_interface = λ u. (record u { held = false }, true);
  dispose_resources = λ u. record u { allocated = false };
}

abbrev bus-Holding : Holding bus
bus-Holding = record {
  interface = λ u. u.held;
  resources = λ u. u.allocated;
  released = λ u. refl;
  disposed = λ u. refl;
  disposes = λ u e. e;
  asks = λ u e. e;
  detaches = λ u e. e;
  looks = λ u e. e;
  sets = λ u e. e;
  fails = λ u errno e h. absurd (some-ne-none errno (sym e));
}

abbrev clock : Clock State
clock = record { now = λ u. u.time; sleep = λ u n. record u { time = u.time + n } }

bus-TimeFlows : TimeFlows bus.usb clock
bus-TimeFlows = record {
  write_takes = λ u frame. omega arith;
  read_takes = λ u. omega arith;
  sleep_takes = λ u n. omega arith;
}

bus-ReadsTick : ReadsTick bus.usb clock
bus-ReadsTick = record { reads = λ u. omega arith; clears = λ u. omega arith }

abbrev euc : List ℕ → Option (List ℕ)
euc bytes = none

-- The event is set late.
abbrev stop : State → Bool
stop u = leb 500 u.time

abbrev args : ScanArgs
args = record {
  lock_timeout = 20;
  dwell = 60;
  min_dwell = 10;
  second = 10;
  interval = 1;
  pause = 1;
}

abbrev chs : List Channel
chs =
    record { name = 50 ∷ 55 ∷ []; frequency_khz = 557143 }
    ∷ record { name = 50 ∷ 56 ∷ []; frequency_khz = 563143 }
    ∷ []

abbrev tuner : DyUd200 State
tuner = record {
  usb = record { time = 0; held = false; allocated = false };
  codec = Protocol.init;
  bcas_pcb = 0;
  ts_errors = 0;
  ts_consecutive_errors = 0;
}

scan_all-Follows_example :
    Returns
      (Follows euc plain_crypto bus clock stop args bus-ReadsTick tuner chs)
      (scan_all euc plain_crypto bus clock stop args chs tuner)
scan_all-Follows_example =
    scan_all-Follows euc plain_crypto bus clock stop args bus-ReadsTick bus-TimeFlows (omega arith)
      chs tuner

abbrev device : Handle State
device = record { tuner = tuner; claimed = false; firmware = none; serial = none }

-- "27"
cmd_scan-IsFree_example :
    All
      (IsFree bus-Holding)
      (cmd_scan euc plain_crypto bus clock stop args
        (λ number mega. int_of number)
        (50 ∷ 55 ∷ [])
        (device ∷ [])).devices
cmd_scan-IsFree_example =
    cmd_scan-IsFree euc plain_crypto bus clock stop args bus-ReadsTick bus-TimeFlows (omega arith)
      bus-Holding (λ number mega. int_of number) (50 ∷ 55 ∷ []) (device ∷ [])
      ((refl, refl, refl), tt)
