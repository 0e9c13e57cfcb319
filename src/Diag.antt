-- ===== src/Diag.antt =====
-- src/recdyud/diag.py: the verdict, and the loop of `cmd_monitor` with its reports.
pub mod Reports
pub mod Scan
pub mod Verdicts
mod Runs
use recdyud.Base.{
  ℕ, zero, suc, ◌+◌, ◌-◌, ◌*◌, max, Bool, true, false, not, ◌&&◌, Option, none, some, List, [], ◌∷◌,
  ◌++◌, length, leb, ltb, ◌==◌, if◌then◌else◌,
}
use recdyud.Device.{lock_threshold, SignalLevel, Result, ok, raise, Error}
use recdyud.Ts.Aligner.{PacketAligner, feed}
use recdyud.Ts.Aligner
use recdyud.Ts.Analyzer.{TsCounters, TsAnalyzer, sub, update}
use recdyud.Ts.Analyzer
use recdyud.Ts.Psi.{complete}
use recdyud.Ts.Si.{SiCollector}
use recdyud.Ts.Si

-- The texts of `_verdict`.
pub data Verdict : Type 0 where
  no_lock no_data fullseg_lost tei_errors cc_errors fine : Verdict

-- `delta.tei_percent >= 90.0`, with both sides multiplied.
unfoldable pub is_mostly_tei : TsCounters → Bool
is_mostly_tei delta = leb (90 * max 1 (delta.packets - delta.null)) (100 * delta.tei)

unfoldable pub verdict : ℕ → TsCounters → Verdict
unfolding is_mostly_tei
verdict lock delta =
    if leb lock lock_threshold
    then no_lock
    else (if delta.packets == 0
        then no_data
        else (if is_mostly_tei delta
            then fullseg_lost
            else (if not (delta.tei == 0)
                then tei_errors
                else (if not (delta.cc_errors == 0) then cc_errors else fine))))

-- The local variables of `cmd_monitor`.
pub record Monitor : Type 0 where
  pub aligner : PacketAligner
  pub analyzer : TsAnalyzer
  pub si : SiCollector
  pub last : ℕ
  pub next_report : ℕ
  pub prev : TsCounters
  pub received : ℕ
  pub si_printed : Bool

-- A round: the event, the chunk if one came, the time after it, and what the tuner would say.
pub record Round : Type 0 where
  pub stopped : Bool
  pub chunk : Option (List ℕ)
  pub now : ℕ
  pub status : Result (ℕ × SignalLevel)

-- What one report says, the derived figures apart; `span` and `received` give the rate.
pub record Report : Type 0 where
  pub time : ℕ
  pub lock : ℕ
  pub level : SignalLevel
  pub received : ℕ
  pub span : ℕ
  pub delta : TsCounters
  pub total : TsCounters
  pub sync_losses : ℕ
  pub verdict : Verdict
  pub names_service : Bool

-- How the loop ends, with the reports: by the event or after the duration, by an exception of the
-- tuner, or (which `feed` never does) not.
pub data End : Type 0 where
  ended : Monitor → End
  raised : Monitor → Error → End
  endless : End

abbrev pub start_monitor : ℕ → ℕ → Monitor
start_monitor started interval = record {
  aligner = Aligner.init;
  analyzer = Analyzer.init;
  si = Si.init;
  last = started;
  next_report = started + interval;
  prev = Analyzer.no_counts;
  received = 0;
  si_printed = false;
}

-- `next_report += interval`, unless that is over already.
unfoldable pub schedule : ℕ → ℕ → ℕ → ℕ
schedule next_report interval now =
    if ltb (next_report + interval) now then now + interval else next_report + interval

unfoldable pub report_of : ℕ → Monitor → ℕ → ℕ × SignalLevel → Report
unfolding sub verdict complete
report_of started m now (lock, level) =
    let delta = sub m.analyzer.total m.prev in
    record {
      time = now - started;
      lock = lock;
      level = level;
      received = m.received;
      span = now - m.last;
      delta = delta;
      total = m.analyzer.total;
      sync_losses = m.aligner.sync_losses;
      verdict = verdict lock delta;
      names_service = not m.si_printed && complete m.si.info;
    }

unfoldable pub after_report : ℕ → Monitor → ℕ → Monitor
unfolding schedule complete
after_report interval m now = record m {
  prev = m.analyzer.total;
  received = 0;
  last = now;
  next_report = schedule m.next_report interval now;
  si_printed = if complete m.si.info then true else m.si_printed;
}

module _ (euc : List ℕ → Option (List ℕ)) where
  unfoldable pub take_packets : Monitor → ℕ → Option (PacketAligner × List ℕ) → Option Monitor
  unfolding update Si.update
  take_packets m size none = none
  take_packets m size (some (a, packets)) = some (record m {
    received = m.received + size;
    aligner = a;
    analyzer = (update m.analyzer packets).0;
    si = Si.update euc m.si packets;
  })

  -- `if chunk:`
  unfoldable pub take_chunk : Monitor → Option (List ℕ) → Option Monitor
  unfolding feed take_packets
  take_chunk m none = some m
  take_chunk m (some []) = some m
  take_chunk m (some (x ∷ chunk)) = take_packets m (length (x ∷ chunk)) (feed m.aligner (x ∷ chunk))

  module _ (started interval duration : ℕ) where
    -- From `lock = tuner.get_lock_status()` on; the last argument is the rest of the loop.
    unfoldable pub after_status :
        Monitor → ℕ → Result (ℕ × SignalLevel) → (Monitor → List Report × End) → List Report × End
    unfolding report_of after_report
    after_status m now (raise e) rest = ([], raised m e)
    after_status m now (ok answer) rest =
        let m' = after_report interval m now in
        let (reports, end) =
          if ltb 0 duration && leb duration (now - started) then ([], ended m') else rest m' in
        (report_of started m now answer ∷ reports, end)

    unfoldable pub after_chunk :
        Option Monitor → Round → (Monitor → List Report × End) → List Report × End
    unfolding after_status
    after_chunk none round rest = ([], endless)
    after_chunk (some m) round rest =
        if ltb round.now m.next_report then rest m else after_status m round.now round.status rest

    -- The reports, in order, and the end.
    unfoldable pub monitor_loop : Monitor → List Round → List Report × End
    unfolding take_chunk after_chunk
    monitor_loop m [] = ([], ended m)
    monitor_loop m (round ∷ rounds) =
        if round.stopped
        then ([], ended m)
        else after_chunk (take_chunk m round.chunk) round (λ m'. monitor_loop m' rounds)

    -- `cmd_monitor` from `reader.start()` on.
    unfoldable pub monitor : List Round → List Report × End
    unfolding monitor_loop
    monitor rounds = monitor_loop (start_monitor started interval) rounds
