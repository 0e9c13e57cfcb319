-- ===== src/Diag/Scan/Released.antt =====
-- What a scan of src/recdyud/diag.py leaves behind, however it ends.
use recdyud.Base.{ℕ, ◌<◌, ◌≡◌, Bool, true, Option, List, [], ◌∷◌, All, All-append}
use recdyud.Protocol.{Crypto}
use recdyud.Channels.Parse.{Channel}
use recdyud.Channels.Ranges.{
  Expansion, channels, invalid_channel, value_error, expand_channel_ranges,
}
use recdyud.Device.Waiting.{Clock}
use recdyud.Device.Waiting.Ends.{TimeFlows}
use recdyud.Device.Lifecycle.{Bus, Handle, Opening, close}
use recdyud.Device.Lifecycle.Holds.{IsFree, Holding}
use recdyud.Device.Lifecycle.Claims.{
  Opens, first_free, not_ready, not_claimed, all_busy, open_device-Opens, close-IsFree,
}
use recdyud.Diag.Scan.{ScanArgs, leave_scan, scan_with, scan_expanded, scan_all, cmd_scan}
use recdyud.Diag.Scan.Ticks.{ReadsTick}
use recdyud.Diag.Scan.Ends.{scan_all-Follows}

module _ {U : Type 0} (euc : List ℕ → Option (List ℕ)) (crypto : Crypto) (bus : Bus U)
    (clock : Clock U) (stop : U → Bool) (args : ScanArgs) (ticks : ReadsTick bus.usb clock)
    (flows : TimeFlows bus.usb clock) (positive : 0 < args.interval) (hold : Holding bus) where
  leave_scan-IsFree :
      (tried : List (Handle U)) (h : Handle U) (chs : List Channel)
      → All (IsFree hold) tried
      → h.claimed ≡ true
      → All
          (IsFree hold)
          (leave_scan euc crypto bus clock stop args tried h
            (scan_all euc crypto bus clock stop args chs h.tuner)).devices
  unfolding leave_scan
  leave_scan-IsFree tried h chs free held =
      let (d, r, run, _) =
        scan_all-Follows euc crypto bus clock stop args ticks flows positive chs h.tuner in
      rw (run, leave_scan)
        (All-append (IsFree hold) tried (close crypto bus (record h { tuner = d }) ∷ []) free
          (close-IsFree crypto bus hold (record h { tuner = d }) held, tt))

  scan_with-IsFree :
      (chs : List Channel) (devices : List (Handle U)) (o : Opening U)
      → Opens crypto bus hold devices o
      → All (IsFree hold) (scan_with euc crypto bus clock stop args chs o).devices
  unfolding scan_with
  scan_with-IsFree chs devices o (first_free before h h' after split busy claims run held free) =
      leave_scan-IsFree _ h' chs free held
  scan_with-IsFree chs devices o (not_ready before h h' after e split busy claims run free) = free
  scan_with-IsFree chs devices o (not_claimed before h after e split busy claims free) = free
  scan_with-IsFree chs devices o (all_busy busy free) = free

  -- However a scan of free devices ends, those that it has tried are free again, their interface
  -- released and their resources disposed of: with results or none, stopped, or with an exception
  -- about the channels, the devices or the tuner. The USB library holds on to devices as `Holding`
  -- says; reads take a tick, the clock does not go back and the polling sleeps.
  pub cmd_scan-IsFree :
      (round_khz : List ℕ → Bool → ℕ) (spec : List ℕ) (devices : List (Handle U))
      → All (IsFree hold) devices
      → All (IsFree hold) (cmd_scan euc crypto bus clock stop args round_khz spec devices).devices
  unfolding cmd_scan scan_expanded
  cmd_scan-IsFree round_khz spec devices free = by_channels (expand_channel_ranges round_khz spec)
    where
      by_channels :
          (e : Expansion)
          → All (IsFree hold) (scan_expanded euc crypto bus clock stop args e devices).devices
      by_channels invalid_channel = tt
      by_channels value_error = tt
      by_channels (channels chs) =
          scan_with-IsFree chs devices _ (open_device-Opens crypto bus hold devices free)
