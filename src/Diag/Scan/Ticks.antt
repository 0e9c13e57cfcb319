-- ===== src/Diag/Scan/Ticks.antt =====
-- How long a read of the stream by a scan of src/recdyud/diag.py takes.
use recdyud.Base.{ℕ, ◌+◌, ◌≤◌, ◌<◌, List, [], ◌∷◌, leb, if-both, arith}
use recdyud.Device.{
  Usb, Code, success, timed_out, no_device, other, DyUd200, Result, ok, raise, Error, read_ts,
  on_read, received, failed, clear_ts, ts_max_consecutive_errors,
}
use recdyud.Device.Waiting.{Clock}
use recdyud.Stream.Purge.{ReadsFlow}

-- A read takes a tick, and the clock does not go back when a halt is cleared.
pub record ReadsTick {U : Type 0} (usb : Usb U) (clock : Clock U) : Type 0 where
  pub reads : (u : U) → clock.now u < clock.now (usb.bulk_read u).0
  pub clears : (u : U) → clock.now u ≤ clock.now (usb.clear_halt u).0

module _ {U : Type 0} (usb : Usb U) (clock : Clock U) (ticks : ReadsTick usb clock) where
  clear_ts-later :
      (d : DyUd200 U) (bytes : List ℕ) → clock.now d.usb ≤ clock.now (clear_ts usb d bytes).0.usb
  unfolding clear_ts
  clear_ts-later d bytes = by_code (usb.clear_halt d.usb).1
    where
      d' : DyUd200 U
      d' = record d { usb = (usb.clear_halt d.usb).0 }

      answer : Code → DyUd200 U × Result (List ℕ)
      answer no_device = (d', raise Error.device_error)
      answer success = (d', ok bytes)
      answer timed_out = (d', ok bytes)
      answer other = (d', ok bytes)

      by_code : (code : Code) → clock.now d.usb ≤ clock.now (answer code).0.usb
      by_code no_device = ticks.clears d.usb
      by_code success = ticks.clears d.usb
      by_code timed_out = ticks.clears d.usb
      by_code other = ticks.clears d.usb

  on_read-later :
      (code : Code) (d : DyUd200 U) (bytes : List ℕ)
      → clock.now d.usb ≤ clock.now (on_read usb code d bytes).0.usb
  unfolding on_read received failed
  on_read-later success d [] = omega arith
  on_read-later success d (x ∷ bytes) = omega arith
  on_read-later timed_out d [] = omega arith
  on_read-later timed_out d (x ∷ bytes) = omega arith
  on_read-later no_device d bytes = omega arith
  on_read-later other d bytes =
      if-both {A = DyUd200 U × Result (List ℕ)} (λ t. clock.now d.usb ≤ clock.now t.0.usb)
        (leb ts_max_consecutive_errors (d.ts_consecutive_errors + 1)) _ _ (λ h. omega arith)
        (λ h. clear_ts-later _ bytes)

  pub read_ts-later : (d : DyUd200 U) → clock.now d.usb < clock.now (read_ts usb d).0.usb
  unfolding read_ts
  read_ts-later d =
      let (u, (code, bytes)) = usb.bulk_read d.usb in
      omega (arith, ticks.reads d.usb, on_read-later code (record d { usb = u }) bytes)

  pub ticks-flow : ReadsFlow usb clock
  ticks-flow = record {
    takes = λ u. omega (arith, ticks.reads u);
    nothing = λ u h. ticks.reads u;
    clears = ticks.clears;
  }
