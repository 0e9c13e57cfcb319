-- ===== src/Cli/Session/Ends.antt =====
-- `stream` of src/recdyud/cli.py from its first statement to its last, without a descrambler.
use recdyud.Base.{
  ℕ, ◌+◌, ◌≤◌, ◌<◌, ◌≡◌, refl, arith, ap, sym, subst, true, false, Option, none, some, List, ◌++◌,
  map, ltb, leb, if◌then◌else◌, if-both, ltb→lt,
}
use recdyud.Protocol.{Crypto}
use recdyud.Device.{DyUd200, Result, ok, raise, Error, lock_threshold, tune}
use recdyud.Device.Waiting.{Clock, wait_lock}
use recdyud.Device.Waiting.Ends.{TimeFlows, wait_lock-Ended}
use recdyud.Device.Lifecycle.{Bus}
use recdyud.Stream.Purge.{ReadsFlow, purge, purge-Purged}
use recdyud.Ts.Aligner
use recdyud.Ts.Analyzer
use recdyud.Cli.Pipeline.{Library, Pipeline}
use recdyud.Cli.Output.{Writer, Output}
use recdyud.Cli.Output.Whole.{Appends}
use recdyud.Cli.Recorder.{Recorder, Exit, status}
use recdyud.Cli.Recorder.Stage.{Stage}
use recdyud.Cli.Recorder.Written.{taken, stream_body-Stage}
use recdyud.Cli.Session.{
  Args, Outside, Ending, left, device_raised, deadline_of, purge_packets, recording, after_purge,
  purge_and_record, after_lock, after_tune, stream,
}

-- The deadline of a recording that starts at this time.
pub until : Option ℕ → ℕ → Option ℕ
until none started = none
until (some rectime) started = some (rectime + started)

deadline_of-until : (o : Option ℕ) (started : ℕ) → deadline_of o started ≡ until o started
unfolding deadline_of until
deadline_of-until none started = refl
deadline_of-until (some rectime) started = ap some (omega arith)

module _ {U S F : Type 0} (crypto : Crypto) (bus : Bus U) (clock : Clock U) (library : Library S)
    (w : Writer F) (reads : DyUd200 U → DyUd200 U) (args : Args) (outside : Outside)
    (content : F → List ℕ) (a : Appends w content) where
  abbrev pub begun : Pipeline S → Output F → Recorder S F
  begun pipeline output = record {
    aligner = Aligner.init;
    analyzer = Analyzer.init;
    pipeline = pipeline;
    output = output;
  }

  -- From the tuned device to the one that `purge` gets: at once where no lock is waited for, or with a
  -- lock above the threshold.
  pub data Locked (tuned : DyUd200 U) : DyUd200 U → Type 0 where
    at_once : args.lock_timeout ≡ 0 → Locked tuned tuned
    by_lock :
        (d : DyUd200 U) (lock : ℕ)
        → 0 < args.lock_timeout
        → wait_lock crypto bus.usb clock tuned args.lock_timeout args.interval ≡ some (d, ok lock)
        → lock_threshold < lock
        → Locked tuned d

  -- The device once it is tuned and, if that is waited for, locked.
  pub record Ready (from : DyUd200 U) (khz : ℕ) (d : DyUd200 U) : Type 0 where
    pub tuned : DyUd200 U
    pub answer : List ℕ
    pub tunes : tune crypto bus.usb from khz ≡ (tuned, ok answer)
    pub locks : Locked tuned d

  -- How `stream` ends: an exception of `tune`, `wait_lock` or `purge`; status 2 without a lock; status
  -- 0 if the signal came before the recording; or the recording, up to a deadline of `rectime` after
  -- the end of `purge`.
  pub data Ends (from : DyUd200 U) (khz : ℕ) (pipeline : Pipeline S) (output : Output F)
      : DyUd200 U × Ending S F → Type 0 where
    not_tuned :
        (d : DyUd200 U) (e : Error)
        → tune crypto bus.usb from khz ≡ (d, raise e)
        → Ends from khz pipeline output (d, device_raised e)
    not_polled :
        (tuned d : DyUd200 U) (answer : List ℕ) (e : Error)
        → tune crypto bus.usb from khz ≡ (tuned, ok answer)
        → 0 < args.lock_timeout
        → wait_lock crypto bus.usb clock tuned args.lock_timeout args.interval ≡ some (d, raise e)
        → Ends from khz pipeline output (d, device_raised e)
    no_lock :
        (tuned d : DyUd200 U) (answer : List ℕ) (lock : ℕ)
        → tune crypto bus.usb from khz ≡ (tuned, ok answer)
        → 0 < args.lock_timeout
        → wait_lock crypto bus.usb clock tuned args.lock_timeout args.interval ≡ some (d, ok lock)
        → lock ≤ lock_threshold
        → Ends from khz pipeline output (d, left none (status 2))
    not_purged :
        (locked d : DyUd200 U) (e : Error)
        → Ready from khz locked
        → purge bus.usb clock args.second purge_packets locked ≡ some (d, raise e)
        → Ends from khz pipeline output (d, device_raised e)
    stopped :
        (locked d : DyUd200 U) (left_over : ℕ)
        → Ready from khz locked
        → purge bus.usb clock args.second purge_packets locked ≡ some (d, ok left_over)
        → outside.stopped ≡ true
        → Ends from khz pipeline output (d, left none (status 0))
    recorded :
        (locked d : DyUd200 U) (left_over : ℕ) (r : Recorder S F) (out : List ℕ)
        → Ready from khz locked
        → purge bus.usb clock args.second purge_packets locked ≡ some (d, ok left_over)
        → outside.stopped ≡ false
        → Stage library w args.keep_null content a
            (begun pipeline output)
            (map
              (λ c. c.0)
              (taken (until args.rectime (clock.now d.usb)) outside.turns ++ outside.drained))
            out
            r
        → Ends from khz pipeline output
            (reads d, left (some r) (if outside.reader_error then status 1 else status 0))

  module _ (flows : TimeFlows bus.usb clock) (flow : ReadsFlow bus.usb clock)
      (pipeline : Pipeline S) (output : Output F) (plain : pipeline.descrambler ≡ none)
      (from : DyUd200 U) (khz : ℕ) where
    recording-Ends :
        (locked d : DyUd200 U) (left_over : ℕ)
        → Ready from khz locked
        → purge bus.usb clock args.second purge_packets locked ≡ some (d, ok left_over)
        → outside.stopped ≡ false
        → Ends from khz pipeline output
            (recording crypto bus clock library w reads args outside d pipeline output)
    unfolding recording
    recording-Ends locked d left_over ready purges on =
        let (r, out, run, s) =
          stream_body-Stage library w args.keep_null content a
            (deadline_of args.rectime (clock.now d.usb)) (begun pipeline output) outside.turns
            outside.drained outside.reader_error plain in
        subst (Ends from khz pipeline output)
          (ap (λ (t : Option (Recorder S F) × Exit). (reads d, left t.0 t.1)) (sym run))
          (recorded locked d left_over r out ready purges on (
            subst
              (λ o.
                Stage library w args.keep_null content a (begun pipeline output)
                  (map (λ c. c.0) (taken o outside.turns ++ outside.drained)) out r)
              (deadline_of-until args.rectime (clock.now d.usb)) s))

    after_purge-Ends :
        (locked : DyUd200 U) (z : DyUd200 U × Result ℕ)
        → Ready from khz locked
        → purge bus.usb clock args.second purge_packets locked ≡ some z
        → Ends from khz pipeline output (
            after_purge crypto bus clock library w reads args outside locked
              (some z)
              pipeline
              output)
    unfolding after_purge
    after_purge-Ends locked (d', raise e) ready purges = not_purged locked d' e ready purges
    after_purge-Ends locked (d', ok left_over) ready purges =
        if-both (Ends from khz pipeline output) outside.stopped _ _
          (λ h. stopped locked d' left_over ready purges h)
          (λ h. recording-Ends locked d' left_over ready purges h)

    purge_and_record-Ends :
        (d : DyUd200 U)
        → Ready from khz d
        → Ends from khz pipeline output
            (purge_and_record crypto bus clock library w reads args outside d pipeline output)
    unfolding purge_and_record
    purge_and_record-Ends d ready =
        let (z, run, _) = purge-Purged bus.usb clock flow args.second purge_packets d in
        subst
          (λ o.
            Ends from khz pipeline output
              (after_purge crypto bus clock library w reads args outside d o pipeline output))
          (sym run) (after_purge-Ends d z ready run)

    after_lock-Ends :
        (d : DyUd200 U) (answer : List ℕ) (z : DyUd200 U × Result ℕ)
        → tune crypto bus.usb from khz ≡ (d, ok answer)
        → 0 < args.lock_timeout
        → wait_lock crypto bus.usb clock d args.lock_timeout args.interval ≡ some z
        → Ends from khz pipeline output
            (after_lock crypto bus clock library w reads args outside d (some z) pipeline output)
    unfolding after_lock
    after_lock-Ends d answer (d', raise e) tunes waits polls =
        not_polled d d' answer e tunes waits polls
    after_lock-Ends d answer (d', ok lock) tunes waits polls =
        if-both (Ends from khz pipeline output) (leb lock lock_threshold) _ _
          (λ h. no_lock d d' answer lock tunes waits polls (ground arith))
          (λ h. purge_and_record-Ends d' (record {
            tuned = d;
            answer = answer;
            tunes = tunes;
            locks = by_lock d' lock waits polls (ground arith);
          }))

    after_tune-Ends :
        (z : DyUd200 U × Result (List ℕ))
        → tune crypto bus.usb from khz ≡ z
        → 0 < args.interval
        → Ends from khz pipeline output
            (after_tune crypto bus clock library w reads args outside z pipeline output)
    unfolding after_tune
    after_tune-Ends (d, raise e) tunes positive = not_tuned d e tunes
    after_tune-Ends (d, ok answer) tunes positive =
        if-both (Ends from khz pipeline output) (ltb 0 args.lock_timeout) _ _
          (λ waits.
            let (z, run, _) =
              wait_lock-Ended crypto bus.usb clock flows d args.lock_timeout args.interval
                positive in
            subst
              (λ o.
                Ends from khz pipeline output
                  (after_lock crypto bus clock library w reads args outside d o pipeline output))
              (sym run) (after_lock-Ends d answer z tunes (ltb→lt 0 args.lock_timeout waits) run))
          (λ straight.
            purge_and_record-Ends d (record {
              tuned = d;
              answer = answer;
              tunes = tunes;
              locks = at_once (ground arith);
            }))

    -- `stream` without a descrambler, on a clock that goes on, a file that takes bytes and any finite
    -- number of rounds of its loop, ends: with an exception of `tune`, `wait_lock` or `purge`; with
    -- status 2 where it was to wait for the lock and that was not above the threshold; and otherwise,
    -- after `purge`, with status 0 where the signal came before the recording, or with all written that
    -- was received before the deadline and the signal or was queued then, and status 1 if the reader
    -- has failed, 0 if not. The deadline is `rectime` after the end of `purge`.
    pub stream-Ends :
        0 < args.interval
        → Ends from khz pipeline output
            (stream crypto bus clock library w reads args outside from khz pipeline output)
    unfolding stream
    stream-Ends positive = after_tune-Ends (tune crypto bus.usb from khz) refl positive
