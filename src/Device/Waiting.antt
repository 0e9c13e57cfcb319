-- ===== src/Device/Waiting.antt =====
-- Polling with a deadline: `wait_lock` of src/recdyud/device.py. Times are ticks of the clock.
pub mod Ends
use recdyud.Base.{
  ℕ, zero, suc, ◌+◌, ◌≤◌, ◌<◌, Bool, ◌||◌, Option, none, some, List, ltb, leb, if◌then◌else◌,
}
use recdyud.Protocol.{Crypto}
use recdyud.Device.{Usb, DyUd200, Result, ok, raise, get_lock_status, lock_threshold}

-- `time.monotonic` and `time.sleep`, on the same state as the USB library.
pub record Clock (U : Type 0) : Type 0 where
  pub now : U → ℕ
  pub sleep : U → ℕ → U

module _ {U : Type 0} (crypto : Crypto) (usb : Usb U) (clock : Clock U) where
  open clock use {now, sleep}

  -- The `while` loop; `none` where the fuel runs out.
  unfoldable pub wait_loop : ℕ → ℕ → ℕ → DyUd200 U → Option (DyUd200 U × Result ℕ)
  wait_loop zero deadline interval d = none
  wait_loop (suc fuel) deadline interval d =
      let (d', r) = get_lock_status crypto usb d in
      let again = wait_loop fuel deadline interval (record d' { usb = sleep d'.usb interval }) in
      elim r [
        | raise e ↦ some (d', raise e)
        | ok status ↦
            if ltb lock_threshold status || leb deadline (now d'.usb)
            then some (d', ok status)
            else again
      ]

  -- One poll for each tick of the timeout, and one more, are enough.
  unfoldable pub wait_lock : DyUd200 U → ℕ → ℕ → Option (DyUd200 U × Result ℕ)
  unfolding wait_loop
  wait_lock d timeout interval = wait_loop (timeout + 1) (now d.usb + timeout) interval d
