-- ===== src/Diag/Reports.antt =====
-- The reports of `cmd_monitor` in src/recdyud/diag.py: nothing is counted twice or lost between them.
use recdyud.Base.{
  ℕ, ◌+◌, ◌-◌, ◌≤◌, ◌<◌, ◌≡◌, true, ap, ◌∙◌, Option, none, some, List, [], ◌∷◌, ◌++◌, map, length,
  arith,
}
use recdyud.Device.{raise, Error, SignalLevel}
use recdyud.Ts.Analyzer.{TsCounters, sub}
use recdyud.Ts.Analyzer.Split.{add_counters}
use recdyud.Ts.Si
use recdyud.Diag.{Monitor, Round, Report, End, ended, raised, report_of, after_report, monitor_loop}
use mathlib.Core.List.{foldl}

-- Counters that are nowhere above others.
pub record Below (c d : TsCounters) : Type 0 where
  pub packets : c.packets ≤ d.packets
  pub tei : c.tei ≤ d.tei
  pub cc_errors : c.cc_errors ≤ d.cc_errors
  pub scrambled : c.scrambled ≤ d.scrambled
  pub null : c.null ≤ d.null

add_counters-sub : (c d : TsCounters) → Below c d → add_counters c (sub d c) ≡ d
unfolding sub add_counters
add_counters-sub c d v =
    let packets : c.packets + (d.packets - c.packets) ≡ d.packets = omega (arith, v.packets) in
    let tei : c.tei + (d.tei - c.tei) ≡ d.tei = omega (arith, v.tei) in
    let errors : c.cc_errors + (d.cc_errors - c.cc_errors) ≡ d.cc_errors =
      omega (arith, v.cc_errors) in
    let scrambled : c.scrambled + (d.scrambled - c.scrambled) ≡ d.scrambled =
      omega (arith, v.scrambled) in
    let null : c.null + (d.null - c.null) ≡ d.null = omega (arith, v.null) in
    λ i. record {
      packets = packets i;
      tei = tei i;
      cc_errors = errors i;
      scrambled = scrambled i;
      null = null i;
    }

chunk_bytes : Option (List ℕ) → ℕ
chunk_bytes none = 0
chunk_bytes (some chunk) = length chunk

-- The bytes of the chunks of these rounds, and those that reports count.
unfoldable pub bytes_of : List Round → ℕ
unfolding chunk_bytes
bytes_of [] = 0
bytes_of (round ∷ rounds) = chunk_bytes round.chunk + bytes_of rounds

unfoldable pub reported : List Report → ℕ
reported [] = 0
reported (report ∷ reports) = report.received + reported reports

-- Why the loop ends, after these rounds, of which the later ones are not handled.
pub data Ceases (started duration : ℕ) (final : Monitor) (handled rest : List Round)
    : End → Type 0 where
  by_event :
      (round : Round) (later : List Round)
      → rest ≡ round ∷ later
      → round.stopped ≡ true
      → Ceases started duration final handled rest (ended final)
  by_duration :
      0 < duration
      → duration ≤ final.last - started
      → Ceases started duration final handled rest (ended final)
  without_rounds : rest ≡ [] → Ceases started duration final handled rest (ended final)
  by_error :
      (before : List Round) (round : Round) (e : Error)
      → handled ≡ before ++ (round ∷ [])
      → round.status ≡ raise e
      → Ceases started duration final handled rest (raised final e)

-- From one state of the loop to its end: what was handled, and how it is split into reports.
pub record Accounted (started duration : ℕ) (m : Monitor) (rounds : List Round)
    (t : List Report × End) : Type 0 where
  pub final : Monitor
  pub handled : List Round
  pub rest : List Round
  pub ends : Ceases started duration final handled rest t.1
  pub split : rounds ≡ handled ++ rest
  pub deltas : foldl add_counters m.prev (map (λ r. r.delta) t.0) ≡ final.prev
  pub bytes : reported t.0 + final.received ≡ m.received + bytes_of handled
  pub below : Below final.prev final.analyzer.total

module _ (euc : List ℕ → Option (List ℕ)) where
  -- The state after a chunk.
  record Taken (m : Monitor) (chunk : Option (List ℕ)) (m' : Monitor) : Type 0 where
    prev : m'.prev ≡ m.prev
    received : m'.received ≡ m.received + chunk_bytes chunk
    below : Below m.prev m.analyzer.total → Below m'.prev m'.analyzer.total

  module _ (started interval duration : ℕ) where
    abbrev loop : Monitor → List Round → List Report × End
    loop = monitor_loop euc started interval duration

    -- A report, then what comes after it.
    reports :
        (m : Monitor) (now : ℕ) (answer : ℕ × SignalLevel) (rounds : List Round)
        (t : List Report × End)
        → Below m.prev m.analyzer.total
        → Accounted started duration (after_report interval m now) rounds t
        → Accounted started duration m rounds (report_of started m now answer ∷ t.0, t.1)
    unfolding report_of after_report reported
    reports m now (lock, level) rounds t below v = record {
      final = v.final;
      ends = v.ends;
      handled = v.handled;
      rest = v.rest;
      split = v.split;
      deltas =
          ap (λ c. foldl add_counters c (map (λ r. r.delta) t.0))
            (add_counters-sub m.prev m.analyzer.total below)
          ∙ v.deltas;
      bytes = omega (arith, v.bytes);
      below = v.below;
    }
