-- ===== src/Diag/Scan.antt =====
-- `ScanResult`, `scan_channel` and `cmd_scan` of src/recdyud/diag.py, and the exit statuses of its
-- `main`. Times are ticks of the clock.
pub mod Sorting
pub mod Ticks
pub mod Returns
pub mod Ends
pub mod Released
mod Runs
use recdyud.Base.{
  ℕ, zero, suc, ◌+◌, ◌-◌, Bool, true, false, not, ◌&&◌, ◌||◌, Option, none, some, List, [], ◌∷◌,
  ◌++◌, map, leb, ltb, if◌then◌else◌,
}
use recdyud.Protocol.{Crypto}
use recdyud.Channels.Parse.{Channel}
use recdyud.Channels.Ranges.{
  Expansion, channels, invalid_channel, value_error, expand_channel_ranges,
}
use recdyud.Device.{
  DyUd200, Result, ok, raise, Error, SignalLevel, lock_threshold, tune, get_signal_level,
  get_lock_status, read_ts,
}
use recdyud.Device.Waiting.{Clock, wait_lock}
use recdyud.Device.Lifecycle.{Bus, Handle, Opening, opened, raised, open_device, close}
use recdyud.Stream.Purge.{purge}
use recdyud.Ts.Aligner.{PacketAligner, feed}
use recdyud.Ts.Aligner
use recdyud.Ts.Analyzer.{TsCounters, TsAnalyzer, update}
use recdyud.Ts.Analyzer
use recdyud.Ts.Psi.{ServiceInfo, TransportInfo, complete}
use recdyud.Ts.Si.{SiCollector}
use recdyud.Ts.Si
use recdyud.Cli.Recorder.{Exit, status, uncaught, endless}
use recdyud.Cli.Session.{status_of, claim_status}

-- `timeout` of `wait_lock`, `dwell`, `min_dwell`, and how many ticks a second, the interval of
-- `wait_lock` and the pause between two samples take.
pub record ScanArgs : Type 0 where
  pub lock_timeout : ℕ
  pub dwell : ℕ
  pub min_dwell : ℕ
  pub second : ℕ
  pub interval : ℕ
  pub pause : ℕ

pub record Service : Type 0 where
  pub service_id : ℕ
  pub service_type : ℕ
  pub name : List ℕ

-- `signal` is the mean of these levels; the counters give the packets and the errors.
pub record ScanResult : Type 0 where
  pub channel : List ℕ
  pub frequency_khz : ℕ
  pub lock : ℕ
  pub signal : List SignalLevel
  pub total : TsCounters
  pub transport_stream_id : Option ℕ
  pub network_name : List ℕ
  pub ts_name : List ℕ
  pub remote_control_key_id : Option ℕ
  pub services : Option (List Service)

unfoldable pub locked : ScanResult → Bool
locked r = ltb lock_threshold r.lock

unfoldable pub name_of : ScanResult → List ℕ
name_of r = elim (r.ts_name) [ [] ↦ r.network_name | c ∷ cs ↦ c ∷ cs ]

-- `bool(services)`
unfoldable pub has_services : Option (List Service) → Bool
has_services none = false
has_services (some []) = false
has_services (some (s ∷ services)) = true

unfoldable pub received : ScanResult → Bool
unfolding locked has_services
received r = locked r && has_services r.services

-- `sorted(..., key=lambda s: s.service_id)`
unfoldable pub insert_service : ServiceInfo → List ServiceInfo → List ServiceInfo
insert_service s [] = s ∷ []
insert_service s (t ∷ services) =
    let rest = insert_service s services in
    if leb s.service_id t.service_id then s ∷ (t ∷ services) else t ∷ rest

unfoldable pub sort_services : List ServiceInfo → List ServiceInfo
unfolding insert_service
sort_services [] = []
sort_services (s ∷ services) = insert_service s (sort_services services)

unfoldable pub services_of : TransportInfo → List Service
unfolding sort_services
services_of info =
    map
      (λ (s : ServiceInfo).
        let row : Service = record {
          service_id = s.service_id;
          service_type = s.service_type;
          name = s.name;
        } in
        row)
      (sort_services (map (λ (item : ℕ × ServiceInfo). item.1) info.services))

-- The result before the stream is read.
unfoldable pub first_result : Channel → ℕ → SignalLevel → ScanResult
first_result ch lock level = record {
  channel = ch.name;
  frequency_khz = ch.frequency_khz;
  lock = lock;
  signal = level ∷ [];
  total = Analyzer.no_counts;
  transport_stream_id = none;
  network_name = [];
  ts_name = [];
  remote_control_key_id = none;
  services = none;
}

-- The local variables of the loop.
pub record Scanner : Type 0 where
  pub aligner : PacketAligner
  pub analyzer : TsAnalyzer
  pub si : SiCollector

abbrev pub start_scanner : Scanner
start_scanner = record { aligner = Aligner.init; analyzer = Analyzer.init; si = Si.init }

unfoldable pub full_result : ScanResult → Scanner → List SignalLevel → ℕ → ScanResult
unfolding services_of
full_result result s signal lock = record result {
  lock = lock;
  signal = signal;
  total = s.analyzer.total;
  transport_stream_id = s.si.info.transport_stream_id;
  network_name = s.si.info.network_name;
  ts_name = s.si.info.ts_name;
  remote_control_key_id = s.si.info.remote_control_key_id;
  services = some (services_of s.si.info);
}

-- One statement after another; `none` is a loop without an end.
unfoldable pub on_ok :
    {U A B : Type 0}
    → Option (DyUd200 U × Result A)
    → (DyUd200 U → A → Option (DyUd200 U × Result B))
    → Option (DyUd200 U × Result B)
on_ok none next = none
on_ok (some (d, raise e)) next = some (d, raise e)
on_ok (some (d, ok a)) next = next d a

module _ (euc : List ℕ → Option (List ℕ)) where
  unfoldable pub take_scanned : Scanner → Option (PacketAligner × List ℕ) → Option Scanner
  unfolding update Si.update
  take_scanned s none = none
  take_scanned s (some (a, packets)) = some (record s {
    aligner = a;
    analyzer = (update s.analyzer packets).0;
    si = Si.update euc s.si packets;
  })

  -- `if n:`
  unfoldable pub scan_chunk : Scanner → List ℕ → Option Scanner
  unfolding feed take_scanned
  scan_chunk s [] = some s
  scan_chunk s (x ∷ chunk) = take_scanned s (feed s.aligner (x ∷ chunk))

module _ {U : Type 0} (euc : List ℕ → Option (List ℕ)) (crypto : Crypto) (bus : Bus U)
    (clock : Clock U) (stop : U → Bool) (args : ScanArgs) where
  -- A round from `read_ts` on; the last argument is the rest of the loop.
  unfoldable pub after_read :
      Scanner
      → DyUd200 U × Result (List ℕ)
      → (Scanner → Option (DyUd200 U × Result Scanner))
      → Option (DyUd200 U × Result Scanner)
  unfolding scan_chunk
  after_read s (d, raise e) again = some (d, raise e)
  after_read s (d, ok bytes) again = elim (scan_chunk euc s bytes) [
    | none ↦ none
    | some s' ↦ again s'
  ]

  -- Whether the loop ends before a read.
  unfoldable pub is_over : ℕ → DyUd200 U → Scanner → Bool
  unfolding complete
  is_over started d s =
      let elapsed = clock.now d.usb - started in
      stop d.usb || (leb args.dwell elapsed || (complete s.si.info && leb args.min_dwell elapsed))

  unfoldable pub scan_loop : ℕ → ℕ → DyUd200 U → Scanner → Option (DyUd200 U × Result Scanner)
  unfolding after_read is_over read_ts
  scan_loop zero started d s = none
  scan_loop (suc fuel) started d s =
      let (d', r) = read_ts bus.usb d in
      let rest = after_read s (d', r) (λ s'. scan_loop fuel started d' s') in
      if is_over started d s then some (d, ok s) else rest

  -- The `for` loop that samples the level.
  unfoldable pub sample : ℕ → DyUd200 U → List SignalLevel → DyUd200 U × Result (List SignalLevel)
  sample zero d samples = (d, ok samples)
  sample (suc rounds) d samples =
      let (d', r) = get_signal_level crypto bus.usb d in
      let next = λ (level : SignalLevel).
        sample rounds (record d' { usb = clock.sleep d'.usb args.pause })
          (samples ++ (level ∷ [])) in
      elim r [ raise e ↦ (d', raise e) | ok level ↦ next level ]

  -- From `purge` on. A read takes a tick, so this fuel is enough.
  unfoldable pub scan_locked : DyUd200 U → ScanResult → Option (DyUd200 U × Result ScanResult)
  unfolding on_ok purge scan_loop sample get_lock_status full_result
  scan_locked d result = on_ok (purge bus.usb clock args.second 512 d) λ d1 left_over.
      on_ok (scan_loop (args.dwell + 1) (clock.now d1.usb) d1 start_scanner) λ d2 s.
        on_ok (some (sample 3 d2 [])) λ d3 signal.
          on_ok (some (get_lock_status crypto bus.usb d3))
            λ d4 lock. some (d4, ok (full_result result s signal lock))

  unfoldable pub scan_channel : DyUd200 U → Channel → Option (DyUd200 U × Result ScanResult)
  unfolding on_ok tune wait_lock get_signal_level first_result scan_locked
  scan_channel d ch = on_ok (some (tune crypto bus.usb d ch.frequency_khz)) λ d1 res.
      on_ok (wait_lock crypto bus.usb clock d1 args.lock_timeout args.interval) λ d2 lock.
        on_ok (some (get_signal_level crypto bus.usb d2)) λ d3 level.
          if leb lock lock_threshold
          then some (d3, ok (first_result ch lock level))
          else scan_locked d3 (first_result ch lock level)

  -- The loop of `cmd_scan`.
  unfoldable pub scan_all : List Channel → DyUd200 U → Option (DyUd200 U × Result (List ScanResult))
  unfolding on_ok scan_channel
  scan_all [] d = some (d, ok [])
  scan_all (ch ∷ chs) d =
      let rest = λ (d1 : DyUd200 U). scan_all chs d1 in
      if stop d.usb
      then some (d, ok [])
      else (on_ok (scan_channel d ch)
          λ d1 r. on_ok (rest d1) λ d2 results. some (d2, ok (r ∷ results)))

-- `any` of the results is received.
unfoldable pub any_received : List ScanResult → Bool
unfolding received
any_received [] = false
any_received (r ∷ results) = received r || any_received results

-- What is left behind: the devices that were tried, and how the program ends.
pub record ScanLeft (U : Type 0) : Type 0 where
  pub devices : List (Handle U)
  pub exit : Exit

unfoldable pub exit_of : Result (List ScanResult) → Exit
unfolding any_received status_of
exit_of (raise e) = status_of e
exit_of (ok results) = if any_received results then status 0 else status 1

module _ {U : Type 0} (euc : List ℕ → Option (List ℕ)) (crypto : Crypto) (bus : Bus U)
    (clock : Clock U) (stop : U → Bool) (args : ScanArgs) where
  -- The end of the `with` statement; an endless loop does not reach it.
  unfoldable pub leave_scan :
      List (Handle U) → Handle U → Option (DyUd200 U × Result (List ScanResult)) → ScanLeft U
  unfolding close exit_of
  leave_scan tried h none = record { devices = tried ++ (h ∷ []); exit = endless }
  leave_scan tried h (some (d, r)) = record {
    devices = tried ++ (close crypto bus (record h { tuner = d }) ∷ []);
    exit = exit_of r;
  }

  unfoldable pub scan_with : List Channel → Opening U → ScanLeft U
  unfolding scan_all leave_scan claim_status
  scan_with chs (raised tried e) = record { devices = tried; exit = claim_status e }
  scan_with chs (opened tried h) =
      leave_scan tried h (scan_all euc crypto bus clock stop args chs h.tuner)

  -- With the `try` of `main`.
  unfoldable pub scan_expanded : Expansion → List (Handle U) → ScanLeft U
  unfolding scan_with open_device
  scan_expanded invalid_channel devices = record { devices = []; exit = status 1 }
  scan_expanded value_error devices = record { devices = []; exit = uncaught }
  scan_expanded (channels chs) devices = scan_with chs (open_device crypto bus devices)

  -- The first argument is the rounding of `parse_channel`.
  unfoldable pub cmd_scan : (List ℕ → Bool → ℕ) → List ℕ → List (Handle U) → ScanLeft U
  unfolding scan_expanded expand_channel_ranges
  cmd_scan round_khz spec devices = scan_expanded (expand_channel_ranges round_khz spec) devices
