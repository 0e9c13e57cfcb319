-- ===== src/Stream.antt =====
-- src/recdyud/stream.py: the thread that reads the tuner's stream, its queue, and `purge`.
pub mod Account
pub mod Purge
mod Runs
use recdyud.Base.{
  ℕ, zero, suc, ◌+◌, ◌-◌, ◌≤◌, ◌<◌, ◌≡◌, max, Bool, true, false, Option, none, some, List, [], ◌∷◌,
  ◌++◌, length, ltb, if◌then◌else◌,
}

abbrev pub queue_chunks : ℕ
queue_chunks = 1536

-- Where the thread stands: before the test of the loop, in `read_ts`, between the two statements of
-- its handler, or at its end.
pub data Place : Type 0 where
  at_loop : Place
  reading : Place
  failing : Place
  ended : Place

-- The object and the thread. `halt_set` is `_halt`, `stop` the event `on_error`; `error` is whether
-- an exception is kept; `last` and `max_gap` are in ticks of the clock.
pub record TsReader : Type 0 where
  pub place : Place
  pub queue : List (List ℕ)
  pub overflows : ℕ
  pub timeouts : ℕ
  pub bytes : ℕ
  pub last : Option ℕ
  pub max_gap : ℕ
  pub error : Bool
  pub stop : Bool
  pub halt_set : Bool

abbrev pub init : TsReader
init = record {
  place = at_loop;
  queue = [];
  overflows = 0;
  timeouts = 0;
  bytes = 0;
  last = none;
  max_gap = 0;
  error = false;
  stop = false;
  halt_set = false;
}

-- `self.max_gap = max(self.max_gap, now - last)`, after the first round.
unfoldable pub gap : Option ℕ → ℕ → ℕ → ℕ
gap none now max_gap = max_gap
gap (some last) now max_gap = max max_gap (now - last)

-- The test of the loop, and what comes before the read.
unfoldable pub begin_round : TsReader → ℕ → TsReader
unfolding gap
begin_round r now =
    if r.halt_set
    then record r { place = ended }
    else record r { place = reading; max_gap = gap r.last now r.max_gap }

-- `put_nowait`, and what follows where the queue is full.
unfoldable pub put_nowait : TsReader → List ℕ → TsReader
put_nowait r chunk =
    if ltb (length r.queue) queue_chunks
    then record r { queue = r.queue ++ (chunk ∷ []) }
    else record r { overflows = r.overflows + 1 }

-- `read_ts` returns with this much in the buffer.
unfoldable pub end_round : TsReader → List ℕ → ℕ → TsReader
unfolding put_nowait
end_round r [] now = record r { place = at_loop; last = some now; timeouts = r.timeouts + 1 }
end_round r (x ∷ chunk) now =
    put_nowait
      (record r {
        place = at_loop;
        last = some now;
        timeouts = 0;
        bytes = r.bytes + length (x ∷ chunk);
      })
      (x ∷ chunk)

-- `read_ts` raises: `self.error = e`.
unfoldable pub fail : TsReader → TsReader
fail r = record r { place = failing; error = true }

-- `self.on_error.set()`
unfoldable pub signal : TsReader → TsReader
signal r = record r { place = ended; stop = true }

-- One step of the thread, or of another one: `get` takes the oldest chunk, `halt` sets the event.
pub data Step (r : TsReader) : TsReader → Type 0 where
  begins : (now : ℕ) → r.place ≡ at_loop → Step r (begin_round r now)
  returns : (chunk : List ℕ) (now : ℕ) → r.place ≡ reading → Step r (end_round r chunk now)
  raises : r.place ≡ reading → Step r (fail r)
  signals : r.place ≡ failing → Step r (signal r)
  gets :
      (chunk : List ℕ) (rest : List (List ℕ))
      → r.queue ≡ chunk ∷ rest
      → Step r (record r { queue = rest })
  halts : Step r (record r { halt_set = true })
  stops : Step r (record r { stop = true })
