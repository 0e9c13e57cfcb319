-- ===== src/Diag/Scan/Ends.antt =====
-- A scan of src/recdyud/diag.py returns, and what.
use recdyud.Base.{
  ℕ, zero, suc, ◌+◌, ◌-◌, ◌≤◌, ◌<◌, ◌≡◌, refl, ap, subst, Bool, true, false, Bool-cases, inl, inr,
  ◌||◌, ◌&&◌, Option, some, List, [], ◌∷◌, leb, if◌then◌else◌, if-both, arith,
}
use recdyud.Protocol.{Crypto}
use recdyud.Channels.Parse.{Channel}
use recdyud.Device.{
  DyUd200, Result, ok, raise, SignalLevel, lock_threshold, tune, get_signal_level, get_lock_status,
  read_ts,
}
use recdyud.Device.Waiting.{Clock, wait_lock}
use recdyud.Device.Waiting.Ends.{TimeFlows, wait_lock-Ended}
use recdyud.Device.Lifecycle.{Bus}
use recdyud.Stream.Purge.{purge-Purged}
use recdyud.Ts.Aligner.Output.{feed_total}
use recdyud.Ts.Psi.{complete}
use recdyud.Diag.Scan.Ticks.{ReadsTick, read_ts-later, ticks-flow}
use recdyud.Diag.Scan.Returns.{Returns, on_ok-Returns, ok_injective, some-Returns}
use recdyud.Diag.Scan.{
  ScanArgs, ScanResult, Scanner, start_scanner, first_result, full_result, on_ok, take_scanned,
  scan_chunk, after_read, is_over, scan_loop, sample, scan_locked, scan_channel, scan_all,
}

scan_chunk_total :
    (euc : List ℕ → Option (List ℕ)) (s : Scanner) (bytes : List ℕ)
    → (s' : Scanner) × (scan_chunk euc s bytes ≡ some s')
unfolding scan_chunk take_scanned
scan_chunk_total euc s [] = (s, refl)
scan_chunk_total euc s (x ∷ chunk) =
    let (a, packets, run, _) = feed_total s.aligner (x ∷ chunk) in (_, ap (take_scanned euc s) run)

module _ {U : Type 0} (euc : List ℕ → Option (List ℕ)) (crypto : Crypto) (bus : Bus U)
    (clock : Clock U) (stop : U → Bool) (args : ScanArgs) (ticks : ReadsTick bus.usb clock) where
  -- A run of the loop: reads one after another, each handed on to the aligner, the analyzer and the
  -- tables, from one state to another.
  pub data Collects : DyUd200 U → Scanner → DyUd200 U → Scanner → Type 0 where
    begun : (d : DyUd200 U) (s : Scanner) → Collects d s d s
    one_more :
        (d d' d'' : DyUd200 U) (s s' s'' : Scanner) (bytes : List ℕ)
        → read_ts bus.usb d ≡ (d', ok bytes)
        → scan_chunk euc s bytes ≡ some s'
        → Collects d' s' d'' s''
        → Collects d s d'' s''

  -- Why the loop ends, which started at this time: the event is set, the dwell time is over, or the
  -- tables are complete and the shorter time is over.
  pub data Over (started : ℕ) (d : DyUd200 U) (s : Scanner) : Type 0 where
    by_event : stop d.usb ≡ true → Over started d s
    by_dwell : args.dwell ≤ clock.now d.usb - started → Over started d s
    by_tables :
        complete s.si.info ≡ true → args.min_dwell ≤ clock.now d.usb - started → Over started d s

  -- A scanner that a run of the loop has come to, from this state.
  pub record Collected (from : DyUd200 U) (first : Scanner) (started : ℕ) (s : Scanner)
      : Type 0 where
    pub last : DyUd200 U
    pub run : Collects from first last s
    pub over : Over started last s

  -- The result of a channel: it has not locked, and nothing of the stream is in it; or it had locked,
  -- and what a run of the loop collected is in it, from a fresh aligner, analyzer and tables.
  pub data Scanned (ch : Channel) : ScanResult → Type 0 where
    unlocked :
        (lock : ℕ) (level : SignalLevel)
        → lock ≤ lock_threshold
        → Scanned ch (first_result ch lock level)
    scanned :
        (before : ℕ) (level : SignalLevel) (from : DyUd200 U) (s : Scanner)
        (signal : List SignalLevel) (lock : ℕ)
        → lock_threshold < before
        → Collected from start_scanner (clock.now from.usb) s
        → Scanned ch (full_result (first_result ch before level) s signal lock)

  -- The results of a scan: one for each channel in their order, each by `scan_channel` from where the
  -- one before has left the tuner, to the end or up to where the event is set.
  pub data Follows : DyUd200 U → List Channel → List ScanResult → Type 0 where
    all_done : (d : DyUd200 U) → Follows d [] []
    interrupted : (d : DyUd200 U) (chs : List Channel) → stop d.usb ≡ true → Follows d chs []
    next :
        (d d' : DyUd200 U) (ch : Channel) (chs : List Channel) (r : ScanResult)
        (results : List ScanResult)
        → stop d.usb ≡ false
        → scan_channel euc crypto bus clock stop args d ch ≡ some (d', ok r)
        → Scanned ch r
        → Follows d' chs results
        → Follows d (ch ∷ chs) (r ∷ results)

  is_over-Over :
      (started : ℕ) (d : DyUd200 U) (s : Scanner)
      → is_over euc crypto bus clock stop args started d s ≡ true
      → Over started d s
  unfolding is_over
  is_over-Over started d s h = elim (Bool-cases (stop d.usb)) [
    | inl e ↦ by_event e
    | inr on ↦ elim (Bool-cases (leb args.dwell (clock.now d.usb - started))) [
      | inl e ↦ by_dwell (ground arith)
      | inr early ↦ elim (Bool-cases (complete s.si.info)) [
        | inl e ↦ by_tables e (ground arith)
        | inr poor ↦ absurd (ground arith)
      ]
    ]
  ]

  after_read-Returns :
      (started : ℕ) (s : Scanner) (d : DyUd200 U) (z : DyUd200 U × Result (List ℕ))
      (again : Scanner → Option (DyUd200 U × Result Scanner))
      → read_ts bus.usb d ≡ z
      → ((s' : Scanner) → Returns (Collected z.0 s' started) (again s'))
      → Returns (Collected d s started) (after_read euc crypto bus clock stop args s z again)
  unfolding after_read
  after_read-Returns started s d (d', raise e) again reads rest =
      (d', raise e, refl, λ a h. absurd (cc h))
  after_read-Returns started s d (d', ok bytes) again reads rest =
      let (s', run) = scan_chunk_total euc s bytes in
      let (d'', r, runs, collected) = rest s' in
      rw (run, after_read)
        (
          d'',
          r,
          runs,
          λ a e.
              let c = collected a e in
              record {
                last = c.last;
                run = one_more d d' c.last s s' a bytes reads run c.run;
                over = c.over;
              },
        )

  scan_loop-Returns :
      (fuel started : ℕ) (d : DyUd200 U) (s : Scanner)
      → started ≤ clock.now d.usb
      → 0 < fuel
      → started + args.dwell < clock.now d.usb + fuel
      → Returns (Collected d s started) (scan_loop euc crypto bus clock stop args fuel started d s)
  unfolding scan_loop
  scan_loop-Returns zero started d s begun_before some_fuel enough = absurd (omega arith)
  scan_loop-Returns (suc fuel) started d s begun_before some_fuel enough =
      if-both (Returns (Collected d s started)) (is_over euc crypto bus clock stop args started d s)
        (some (d, ok s)) _
        (λ h. (
          d,
          ok s,
          refl,
          λ a e.
              subst (Collected d s started) (ok_injective e)
                (record { last = d; run = begun d s; over = is_over-Over started d s h }),
        ))
        (λ h.
          let early : clock.now d.usb - started < args.dwell =
            unfold is_over in
            before (stop d.usb)
              (complete s.si.info && leb args.min_dwell (clock.now d.usb - started)) h in
          after_read-Returns started s d (read_ts bus.usb d) _ refl (λ s'.
            scan_loop-Returns fuel started (read_ts bus.usb d).0 s'
              (omega (arith, read_ts-later bus.usb clock ticks d)) (omega arith)
              (omega (arith, read_ts-later bus.usb clock ticks d))))
    where
      before :
          (stopped rich : Bool)
          → (stopped || (leb args.dwell (clock.now d.usb - started) || rich)) ≡ false
          → clock.now d.usb - started < args.dwell
      before stopped rich h = ground arith

  module _ (flows : TimeFlows bus.usb clock) (positive : 0 < args.interval) where
    scan_locked-Returns :
        (d : DyUd200 U) (ch : Channel) (lock : ℕ) (level : SignalLevel)
        → lock_threshold < lock
        → Returns
            (Scanned ch)
            (scan_locked euc crypto bus clock stop args d (first_result ch lock level))
    unfolding scan_locked
    scan_locked-Returns d ch lock level high =
        let (z, purged, _) =
          purge-Purged bus.usb clock (ticks-flow bus.usb clock ticks) args.second 512 d in
        on_ok-Returns (λ (n : ℕ). Unit {0}) (Scanned ch) _ _ (z.0, z.1, purged, λ a h. tt)
          λ d1 left_over any.
            on_ok-Returns (Collected d1 start_scanner (clock.now d1.usb)) (Scanned ch) _ _
              (scan_loop-Returns (args.dwell + 1) (clock.now d1.usb) d1 start_scanner (omega arith)
                (omega arith) (omega arith))
              λ d2 s collected.
                on_ok-Returns (λ (l : List SignalLevel). Unit {0}) (Scanned ch)
                  (some (sample euc crypto bus clock stop args 3 d2 [])) (polled s)
                  (some-Returns (sample euc crypto bus clock stop args 3 d2 []))
                  λ d3 signal any''.
                    on_ok-Returns (λ (n : ℕ). Unit {0}) (Scanned ch)
                      (some (get_lock_status crypto bus.usb d3)) (given s signal)
                      (some-Returns (get_lock_status crypto bus.usb d3))
                      λ d4 lock' any'''. (
                        d4,
                        ok (full_result (first_result ch lock level) s signal lock'),
                        refl,
                        λ a e.
                            subst (Scanned ch) (ok_injective e)
                              (scanned lock level d1 s signal lock' high collected),
                      )
      where
        given : Scanner → List SignalLevel → DyUd200 U → ℕ → Option (DyUd200 U × Result ScanResult)
        given s signal d4 lock' =
            some (d4, ok (full_result (first_result ch lock level) s signal lock'))

        polled : Scanner → DyUd200 U → List SignalLevel → Option (DyUd200 U × Result ScanResult)
        polled s d3 signal = on_ok (some (get_lock_status crypto bus.usb d3)) (given s signal)

    scan_channel-Returns :
        (d : DyUd200 U) (ch : Channel)
        → Returns (Scanned ch) (scan_channel euc crypto bus clock stop args d ch)
    unfolding scan_channel
    scan_channel-Returns d ch =
        on_ok-Returns (λ (res : List ℕ). Unit {0}) (Scanned ch)
          (some (tune crypto bus.usb d ch.frequency_khz)) waited
          (some-Returns (tune crypto bus.usb d ch.frequency_khz))
          λ d1 res any.
            let (z, locks, _) =
              wait_lock-Ended crypto bus.usb clock flows d1 args.lock_timeout args.interval
                positive in
            on_ok-Returns (λ (lock : ℕ). Unit {0}) (Scanned ch) _ levelled
              (z.0, z.1, locks, λ a h. tt)
              λ d2 lock any'.
                on_ok-Returns (λ (level : SignalLevel). Unit {0}) (Scanned ch)
                  (some (get_signal_level crypto bus.usb d2)) (decided lock)
                  (some-Returns (get_signal_level crypto bus.usb d2))
                  λ d3 level any''.
                    if-both (Returns (Scanned ch)) (leb lock lock_threshold) _ _
                      (λ h. (
                        d3,
                        ok (first_result ch lock level),
                        refl,
                        λ a e.
                            subst (Scanned ch) (ok_injective e)
                              (unlocked lock level (ground arith)),
                      ))
                      (λ h. scan_locked-Returns d3 ch lock level (ground arith))
      where
        decided : ℕ → DyUd200 U → SignalLevel → Option (DyUd200 U × Result ScanResult)
        decided lock d3 level =
            if leb lock lock_threshold
            then some (d3, ok (first_result ch lock level))
            else scan_locked euc crypto bus clock stop args d3 (first_result ch lock level)

        levelled : DyUd200 U → ℕ → Option (DyUd200 U × Result ScanResult)
        levelled d2 lock = on_ok (some (get_signal_level crypto bus.usb d2)) (decided lock)

        waited : DyUd200 U → List ℕ → Option (DyUd200 U × Result ScanResult)
        waited d1 res =
            on_ok (wait_lock crypto bus.usb clock d1 args.lock_timeout args.interval) levelled

    -- What the other channels give.
    others :
        (d : DyUd200 U) (ch : Channel) (chs : List Channel) (z : DyUd200 U × Result ScanResult)
        → stop d.usb ≡ false
        → scan_channel euc crypto bus clock stop args d ch ≡ some z
        → ((r : ScanResult) → z.1 ≡ ok r → Scanned ch r)
        → Returns (Follows z.0 chs) (scan_all euc crypto bus clock stop args chs z.0)
        → Returns (Follows d (ch ∷ chs)) (
            on_ok (some z) (λ d1 r.
              on_ok
                (scan_all euc crypto bus clock stop args chs d1)
                (λ d2 results. some (d2, ok (r ∷ results)))))
    unfolding on_ok
    others d ch chs (d1, raise e) on run found rest = (d1, raise e, refl, λ a h. absurd (cc h))
    others d ch chs (d1, ok r) on run found rest =
        on_ok-Returns (Follows d1 chs) (Follows d (ch ∷ chs)) _ _ rest λ d2 results follows. (
          d2,
          ok (r ∷ results),
          refl,
          λ a e.
              subst (Follows d (ch ∷ chs)) (ok_injective e)
                (next d d1 ch chs r results on run (found r refl) follows),
        )

    -- Where a read takes a tick, the clock does not go back and the polling sleeps, a scan returns,
    -- whatever it receives. Unless it raises, there is a result for each channel, in their order, to
    -- the last or up to where the event is set: that the lock was not above the threshold, with nothing
    -- else; or, the lock having been above it, what a run of reads has collected from a fresh state,
    -- which ended as the event was set, the dwell time was over, or the tables were complete and the
    -- shorter time over.
    pub scan_all-Follows :
        (chs : List Channel) (d : DyUd200 U)
        → Returns (Follows d chs) (scan_all euc crypto bus clock stop args chs d)
    unfolding scan_all
    scan_all-Follows [] d =
        (d, ok [], refl, λ a e. subst (Follows d []) (ok_injective e) (all_done d))
    scan_all-Follows (ch ∷ chs) d =
        if-both (Returns (Follows d (ch ∷ chs))) (stop d.usb) (some (d, ok [])) _
          (λ h. (
            d,
            ok [],
            refl,
            λ a e. subst (Follows d (ch ∷ chs)) (ok_injective e) (interrupted d (ch ∷ chs) h),
          ))
          (λ h.
            let (d1, r, run, found) = scan_channel-Returns d ch in
            rw run (others d ch chs (d1, r) h run found (scan_all-Follows chs d1)))
