-- ===== src/Cli/Session.antt =====
-- The whole of a recording in src/recdyud/cli.py: `stream` with what it does before its loop, `record`
-- and the exit statuses of `main`.
pub mod Ends
pub mod Released
mod Runs
use recdyud.Base.{
  ℕ, zero, suc, ◌+◌, Bool, true, false, Option, none, some, List, [], ◌∷◌, ◌++◌, ltb, leb,
  if◌then◌else◌,
}
use recdyud.Protocol.{Crypto}
use recdyud.Device.{
  DyUd200, Result, ok, raise, Error, device_error, value_error, lock_threshold, tune,
}
use recdyud.Device.Waiting.{Clock, wait_lock}
use recdyud.Device.Lifecycle.{
  Bus, Handle, ClaimError, device_busy, failed, Opening, opened, raised, open_device, close,
}
use recdyud.Stream.Purge.{purge}
use recdyud.Ts.Aligner
use recdyud.Ts.Analyzer
use recdyud.Cli.Pipeline.{Library, Pipeline}
use recdyud.Cli.Pipeline
use recdyud.Cli.Output.{Writer, Output, close_file}
use recdyud.Cli.Recorder.{Recorder, Turn, Exit, status, uncaught, endless, stream_body}

abbrev pub purge_packets : ℕ
purge_packets = 2048

-- The arguments; times are in ticks of the clock, of which `second` make a second, and `to_file` is
-- whether the destination is a file and not the standard output.
pub record Args : Type 0 where
  pub frequency_khz : Option ℕ
  pub lock_timeout : ℕ
  pub rectime : Option ℕ
  pub b25_timeout : ℕ
  pub keep_null : Bool
  pub interval : ℕ
  pub second : ℕ
  pub to_file : Bool

-- What comes to `stream` from outside: whether `stop` is set when the loop is reached, the rounds of
-- the loop, what `drain` finds, and whether the reader fails.
pub record Outside : Type 0 where
  pub stopped : Bool
  pub turns : List Turn
  pub drained : List (List ℕ × ℕ)
  pub reader_error : Bool

-- How `stream` ends: with a return or an exception of the output; with one of the tuner; or not.
pub data Ending (S F : Type 0) : Type 0 where
  left : Option (Recorder S F) → Exit → Ending S F
  device_raised : Error → Ending S F

-- `deadline`, from the time at which the recording starts.
unfoldable pub deadline_of : Option ℕ → ℕ → Option ℕ
deadline_of none started = none
deadline_of (some rectime) started = some (started + rectime)

-- `main`: the exit status for an exception of the tuner.
unfoldable pub status_of : Error → Exit
status_of device_error = status 1
status_of value_error = uncaught

unfoldable pub exit_status : {S F : Type 0} → Ending S F → Exit
unfolding status_of
exit_status (left r exit) = exit
exit_status (device_raised e) = status_of e

unfoldable pub claim_status : ClaimError → Exit
unfolding status_of
claim_status device_busy = status 1
claim_status (failed e) = status_of e

module _ {U S F : Type 0} (crypto : Crypto) (bus : Bus U) (clock : Clock U) (library : Library S)
    (w : Writer F) (reads : DyUd200 U → DyUd200 U) (args : Args) (outside : Outside) where
  -- From `reader = TsReader(tuner, stop)` on; `reads` is what the thread does to the tuner.
  unfoldable pub recording : DyUd200 U → Pipeline S → Output F → DyUd200 U × Ending S F
  unfolding stream_body deadline_of
  recording d pipeline output =
      let recorder : Recorder S F = record {
        aligner = Aligner.init;
        analyzer = Analyzer.init;
        pipeline = pipeline;
        output = output;
      } in
      let (r, exit) =
        stream_body library w args.keep_null (deadline_of args.rectime (clock.now d.usb)) recorder
          outside.turns outside.drained outside.reader_error in
      (reads d, left r exit)

  -- After `purge`; the first tuner is the one before, where the model has no end.
  unfoldable pub after_purge :
      DyUd200 U → Option (DyUd200 U × Result ℕ) → Pipeline S → Output F → DyUd200 U × Ending S F
  unfolding recording
  after_purge d none pipeline output = (d, left none endless)
  after_purge d (some (d', raise e)) pipeline output = (d', device_raised e)
  after_purge d (some (d', ok left_over)) pipeline output =
      if outside.stopped then (d', left none (status 0)) else recording d' pipeline output

  unfoldable pub purge_and_record : DyUd200 U → Pipeline S → Output F → DyUd200 U × Ending S F
  unfolding after_purge
  purge_and_record d pipeline output =
      after_purge d (purge bus.usb clock args.second purge_packets d) pipeline output

  -- After `wait_lock`.
  unfoldable pub after_lock :
      DyUd200 U → Option (DyUd200 U × Result ℕ) → Pipeline S → Output F → DyUd200 U × Ending S F
  unfolding purge_and_record
  after_lock d none pipeline output = (d, left none endless)
  after_lock d (some (d', raise e)) pipeline output = (d', device_raised e)
  after_lock d (some (d', ok lock)) pipeline output =
      if leb lock lock_threshold
      then (d', left none (status 2))
      else purge_and_record d' pipeline output

  unfoldable pub after_tune :
      DyUd200 U × Result (List ℕ) → Pipeline S → Output F → DyUd200 U × Ending S F
  unfolding after_lock
  after_tune (d, raise e) pipeline output = (d, device_raised e)
  after_tune (d, ok res) pipeline output =
      if ltb 0 args.lock_timeout
      then after_lock d (wait_lock crypto bus.usb clock d args.lock_timeout args.interval) pipeline
          output
      else purge_and_record d pipeline output

  unfoldable pub stream : DyUd200 U → ℕ → Pipeline S → Output F → DyUd200 U × Ending S F
  unfolding after_tune
  stream d khz pipeline output = after_tune (tune crypto bus.usb d khz) pipeline output

-- What is left behind: the devices that were tried, the file of the output, if it was opened, and how
-- the program ends.
pub record Left (U F : Type 0) : Type 0 where
  pub devices : List (Handle U)
  pub file : Option F
  pub exit : Exit

-- The file as `stream` leaves it. Where it has not come to its recorder, nothing is written.
unfoldable pub file_of : {S F : Type 0} → Output F → Ending S F → F
file_of output (left (some r) exit) = r.output.file
file_of output (left none exit) = output.file
file_of output (device_raised e) = output.file

module _ {U S F : Type 0} (crypto : Crypto) (bus : Bus U) (clock : Clock U) (library : Library S)
    (w : Writer F) (reads : DyUd200 U → DyUd200 U) (args : Args) (outside : Outside) where
  -- The outer `finally`.
  unfoldable pub closed : F → Option F
  unfolding close_file
  closed f = some (close_file w args.to_file f)

  -- The `with` statement's end, and the outer `finally`. An endless `stream` reaches neither.
  unfoldable pub leave : List (Handle U) → Handle U → Output F → Ending S F → Left U F
  unfolding exit_status close closed file_of
  leave tried h output (left r endless) = record {
    devices = tried ++ (h ∷ []);
    file = some (file_of output (left r endless));
    exit = endless;
  }
  leave tried h output ending = record {
    devices = tried ++ (close crypto bus h ∷ []);
    file = closed (file_of output ending);
    exit = exit_status ending;
  }

  -- With the descrambler; `none` is another exception of `setup_descrambler`.
  unfoldable pub with_setup :
      List (Handle U) → Handle U → ℕ → Output F → DyUd200 U × Option (Option S) → Left U F
  unfolding leave stream
  with_setup tried h khz output (d, none) =
      leave tried (record h { tuner = d }) output (left none uncaught)
  with_setup tried h khz output (d, some descrambler) =
      let (d', ending) =
        stream crypto bus clock library w reads args outside d khz
          (Pipeline.init descrambler args.b25_timeout) output in
      leave tried (record h { tuner = d' }) output ending

  -- With the device open: `setup` is `setup_descrambler`, or nothing with `--no-b25`.
  unfoldable pub with_device :
      (DyUd200 U → DyUd200 U × Option (Option S)) → ℕ → Output F → Opening U → Left U F
  unfolding with_setup closed claim_status
  with_device setup khz output (raised tried e) = record {
    devices = tried;
    file = closed output.file;
    exit = claim_status e;
  }
  with_device setup khz output (opened tried h) = with_setup tried h khz output (setup h.tuner)

  -- `record` and `main`; `output` is `none` where the file cannot be opened.
  unfoldable pub record_to :
      (DyUd200 U → DyUd200 U × Option (Option S))
      → List (Handle U)
      → Option ℕ
      → Option (Output F)
      → Left U F
  unfolding with_device open_device
  record_to setup devices none output = record { devices = []; file = none; exit = status 2 }
  record_to setup devices (some khz) none = record { devices = []; file = none; exit = uncaught }
  record_to setup devices (some khz) (some output) =
      with_device setup khz output (open_device crypto bus devices)

  unfoldable pub main :
      (DyUd200 U → DyUd200 U × Option (Option S)) → List (Handle U) → Option (Output F) → Left U F
  unfolding record_to
  main setup devices output = record_to setup devices args.frequency_khz output
