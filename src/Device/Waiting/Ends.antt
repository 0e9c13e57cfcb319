-- ===== src/Device/Waiting/Ends.antt =====
-- `wait_lock` of src/recdyud/device.py returns, and when.
use recdyud.Base.{
  ℕ, zero, suc, ◌+◌, ◌≤◌, ◌<◌, ◌≡◌, refl, inl, inr, Bool, false, ◌||◌, Option, some, List, ltb, leb,
  if◌then◌else◌, if-both, Bool-cases, arith,
}
use recdyud.Protocol.{Crypto, CommandCodec}
use recdyud.Protocol
use recdyud.Device.{
  Usb, DyUd200, Result, ok, raise, Error, exchange, send, command, get_lock_status, lock_threshold,
}
use recdyud.Device.Waiting.{Clock, wait_loop, wait_lock}

-- The clock does not go back during a transfer, and a sleep lasts as long as it is asked to.
pub record TimeFlows {U : Type 0} (usb : Usb U) (clock : Clock U) : Type 0 where
  pub write_takes : (u : U) (frame : List ℕ) → clock.now u ≤ clock.now (usb.write u frame).0
  pub read_takes : (u : U) → clock.now u ≤ clock.now (usb.read u).0
  pub sleep_takes : (u : U) (n : ℕ) → clock.now u + n ≤ clock.now (clock.sleep u n)

module _ {U : Type 0} (crypto : Crypto) (usb : Usb U) (clock : Clock U)
    (flows : TimeFlows usb clock) where
  exchange-later :
      (u : U) (frame : List ℕ) → clock.now u ≤ clock.now (exchange crypto usb u frame).0
  unfolding exchange
  exchange-later u frame =
      if-both {A = U × Option (List ℕ)} (λ t. clock.now u ≤ clock.now t.0) ((usb.write u frame).1) _
        _ (λ h. omega (arith, flows.write_takes u frame, flows.read_takes (usb.write u frame).0))
        (λ h. flows.write_takes u frame)

  send-later :
      (d : DyUd200 U) (check : Bool) (r : Protocol.Result (CommandCodec × List ℕ))
      → clock.now d.usb ≤ clock.now (send crypto usb d check r).0.usb
  unfolding send
  send-later d check (Protocol.raise e) = omega arith
  send-later d check (Protocol.ok (codec, frame)) = exchange-later d.usb frame

  get_lock_status-later :
      (d : DyUd200 U) → clock.now d.usb ≤ clock.now (get_lock_status crypto usb d).0.usb
  unfolding get_lock_status command
  get_lock_status-later d = send-later d false _

  -- What `wait_lock` returns, always from a poll that it has made last: an exception; or a status
  -- above the threshold; or one that is not, the deadline being over.
  pub data Ended (deadline : ℕ) : DyUd200 U × Result ℕ → Type 0 where
    failed :
        (polled d : DyUd200 U) (e : Error)
        → get_lock_status crypto usb polled ≡ (d, raise e)
        → Ended deadline (d, raise e)
    locked :
        (polled d : DyUd200 U) (status : ℕ)
        → get_lock_status crypto usb polled ≡ (d, ok status)
        → lock_threshold < status
        → Ended deadline (d, ok status)
    timed_out :
        (polled d : DyUd200 U) (status : ℕ)
        → get_lock_status crypto usb polled ≡ (d, ok status)
        → status ≤ lock_threshold
        → deadline ≤ clock.now d.usb
        → Ended deadline (d, ok status)

  -- What a round makes of the status, where the rest of the loop, if it is reached, ends well.
  after_poll :
      (deadline : ℕ) (polled d : DyUd200 U) (r : Result ℕ) (again : Option (DyUd200 U × Result ℕ))
      → get_lock_status crypto usb polled ≡ (d, r)
      → (clock.now d.usb < deadline
          → (t : DyUd200 U × Result ℕ) × (again ≡ some t) × Ended deadline t)
      → (t : DyUd200 U × Result ℕ) × (elim r [
        | raise e ↦ some (d, raise e)
        | ok status ↦
            if ltb lock_threshold status || leb deadline (clock.now d.usb)
            then some (d, ok status)
            else again
      ]
          ≡ some t)
        × Ended deadline t
  after_poll deadline polled d (raise e) again run rest =
      ((d, raise e), refl, failed polled d e run)
  after_poll deadline polled d (ok status) again polls rest =
      elim (Bool-cases (ltb lock_threshold status)) [
        | inl high ↦ ((d, ok status), rw high, locked polled d status polls (ground arith))
        | inr low ↦ elim (Bool-cases (leb deadline (clock.now d.usb))) [
          | inl over ↦ (
            (d, ok status),
            rw (low, over),
            timed_out polled d status polls (ground arith) (ground arith),
          )
          | inr early ↦ let (t, run, v) = rest (ground arith) in (t, rw (low, early) run, v)
        ]
      ]

  wait_loop-Ended :
      (fuel deadline interval : ℕ) (d : DyUd200 U)
      → 0 < interval
      → 0 < fuel
      → deadline < clock.now d.usb + fuel
      → (t : DyUd200 U × Result ℕ) × (wait_loop crypto usb clock fuel deadline interval d ≡ some t)
        × Ended deadline t
  unfolding wait_loop
  wait_loop-Ended zero deadline interval d positive some_fuel enough = absurd (omega arith)
  wait_loop-Ended (suc fuel) deadline interval d positive some_fuel enough =
      after_poll deadline d d' (get_lock_status crypto usb d).1
        (wait_loop crypto usb clock fuel deadline interval
          (record d' { usb = clock.sleep d'.usb interval }))
        refl
        (λ early.
          wait_loop-Ended fuel deadline interval (record d' { usb = clock.sleep d'.usb interval })
            positive (omega (arith, get_lock_status-later d))
            (omega (arith, get_lock_status-later d, flows.sleep_takes d'.usb interval)))
    where
      d' : DyUd200 U
      d' = (get_lock_status crypto usb d).0

  -- With a clock that does not go back and a sleep of at least a tick, `wait_lock` returns, with what
  -- its last poll of the lock status gave: an exception; a status above the threshold; or, only once
  -- the deadline is over, a status that is not above it.
  pub wait_lock-Ended :
      (d : DyUd200 U) (timeout interval : ℕ)
      → 0 < interval
      → (t : DyUd200 U × Result ℕ) × (wait_lock crypto usb clock d timeout interval ≡ some t)
        × Ended (clock.now d.usb + timeout) t
  unfolding wait_lock
  wait_lock-Ended d timeout interval positive =
      wait_loop-Ended (timeout + 1) (clock.now d.usb + timeout) interval d positive (omega arith)
        (omega arith)
