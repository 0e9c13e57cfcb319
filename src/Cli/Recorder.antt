-- ===== src/Cli/Recorder.antt =====
-- The stages that `stream` of src/recdyud/cli.py puts behind one another, and its loop.
pub mod Stage
pub mod Written
mod Runs
use recdyud.Base.{
  ℕ, zero, suc, ◌+◌, ◌≤◌, ◌≡◌, Bool, true, false, ◌||◌, Option, none, some, List, [], ◌∷◌, ◌++◌,
  length, leb, if◌then◌else◌,
}
use recdyud.Ts.Aligner.{PacketAligner, feed}
use recdyud.Ts.Analyzer.{TsAnalyzer, update}
use recdyud.Cli.{drop_null_packets}
use recdyud.Cli.Pipeline.{Library, Pipeline, process, finish}
use recdyud.Cli.Output.{
  Writer, Output, Outcome, went_on, raised, no_end, WriteError, broken_pipe, os_error, write,
}

pub record Recorder (S F : Type 0) : Type 0 where
  pub aligner : PacketAligner
  pub analyzer : TsAnalyzer
  pub pipeline : Pipeline S
  pub output : Output F

-- `args.keep_null`
unfoldable pub filtered : Bool → List ℕ → List ℕ
filtered true packets = packets
filtered false packets = drop_null_packets packets

-- One round of the main loop: whether `stop` is set, the time, the chunk that came within the
-- timeout, and the time at which it is handled.
pub record Turn : Type 0 where
  pub stopped : Bool
  pub now : ℕ
  pub chunk : Option (List ℕ)
  pub later : ℕ

-- How the program ends: with an exit status, with an exception that it does not catch, or not.
pub data Exit : Type 0 where
  status : ℕ → Exit
  uncaught : Exit
  endless : Exit

-- `deadline is not None` and `remaining <= 0`
unfoldable pub is_past : Option ℕ → ℕ → Bool
is_past none now = false
is_past (some deadline) now = leb deadline now

module _ {S F : Type 0} where
  unfoldable pub with_output : Recorder S F → Outcome (Output F) → Outcome (Recorder S F)
  with_output r (went_on o) = went_on (record r { output = o })
  with_output r (raised o e) = raised (record r { output = o }) e
  with_output r no_end = no_end

  -- One statement after another.
  unfoldable pub and_then :
      Outcome (Recorder S F) → (Recorder S F → Outcome (Recorder S F)) → Outcome (Recorder S F)
  and_then (went_on r) next = next r
  and_then (raised r e) next = raised r e
  and_then no_end next = no_end

  -- The exception handler of `stream` and its exit status.
  unfoldable pub exit_of : Bool → Outcome (Recorder S F) → Option (Recorder S F) × Exit
  exit_of reader_error (went_on r) = (some r, if reader_error then status 1 else status 0)
  exit_of reader_error (raised r broken_pipe) = (some r, status 0)
  exit_of reader_error (raised r os_error) = (some r, uncaught)
  exit_of reader_error no_end = (none, endless)

module _ {S F : Type 0} (library : Library S) (w : Writer F) (keep_null : Bool) where
  -- `if data: output.write(data)`
  unfoldable pub write_data : Recorder S F → List ℕ → Outcome (Recorder S F)
  unfolding with_output
  write_data r [] = went_on r
  write_data r (x ∷ bytes) = with_output r (write w r.output (x ∷ bytes))

  -- `handle` behind the aligner.
  unfoldable pub on_packets : Recorder S F → List ℕ → ℕ → Outcome (Recorder S F)
  unfolding write_data
  on_packets r [] now = went_on r
  on_packets r (x ∷ packets) now =
      let (p, out) = process library r.pipeline (filtered keep_null (x ∷ packets)) now in
      write_data (record r { analyzer = (update r.analyzer (x ∷ packets)).0; pipeline = p }) out

  -- `feed` always returns; a `none` of its model would be no end here too.
  unfoldable pub after_feed :
      Recorder S F → Option (PacketAligner × List ℕ) → ℕ → Outcome (Recorder S F)
  unfolding on_packets
  after_feed r none now = no_end
  after_feed r (some (a, packets)) now = on_packets (record r { aligner = a }) packets now

  unfoldable pub handle : Recorder S F → List ℕ → ℕ → Outcome (Recorder S F)
  unfolding after_feed
  handle r chunk now = after_feed r (feed r.aligner chunk) now

  -- `for chunk in reader.drain(): handle(chunk)`, with the time at which each chunk is handled.
  unfoldable pub handle_all : Recorder S F → List (List ℕ × ℕ) → Outcome (Recorder S F)
  unfolding and_then
  handle_all r [] = went_on r
  handle_all r ((chunk, now) ∷ chunks) = and_then (handle r chunk now) (λ r'. handle_all r' chunks)

  -- The main loop, one turn for each round; it ends where `stop` is set or the deadline is reached.
  unfoldable pub stream_loop : Option ℕ → Recorder S F → List Turn → Outcome (Recorder S F)
  unfolding and_then
  stream_loop deadline r [] = went_on r
  stream_loop deadline r (turn ∷ turns) =
      let idle = stream_loop deadline r turns in
      let busy = λ (chunk : List ℕ).
        and_then (handle r chunk turn.later) (λ r'. stream_loop deadline r' turns) in
      if turn.stopped || is_past deadline turn.now
      then went_on r
      else elim (turn.chunk) [ none ↦ idle | some chunk ↦ busy chunk ]

  -- `tail = pipeline.finish()` and its output.
  unfoldable pub write_tail : Recorder S F → Outcome (Recorder S F)
  unfolding write_data
  write_tail r =
      let (p, tail) = finish library r.pipeline in write_data (record r { pipeline = p }) tail

  -- From the first round of the loop on: the turns, what `drain` still finds, and whether the reader
  -- has failed.
  unfoldable pub stream_body :
      Option ℕ → Recorder S F → List Turn → List (List ℕ × ℕ) → Bool → Option (Recorder S F) × Exit
  unfolding and_then exit_of
  stream_body deadline r turns drained reader_error =
      exit_of reader_error (
        and_then (stream_loop deadline r turns) (λ r1. and_then (handle_all r1 drained) write_tail))
