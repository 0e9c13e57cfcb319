-- ===== src/Device/Lifecycle.antt =====
-- `DyUd200` of src/recdyud/device.py from `_claim` to `release`, and `open_device`.
pub mod Text
pub mod Keys
pub mod Holds
pub mod Claims
mod Runs
use recdyud.Base.{
  ℕ, zero, suc, ◌+◌, Bool, true, false, Option, none, some, List, [], ◌∷◌, ◌++◌, length, get_or,
  slice, replicate, ◌==◌, if◌then◌else◌, int_from_bytes,
}
use recdyud.Protocol.{Crypto}
use recdyud.Device.{
  Usb, Code, success, timed_out, no_device, other, DyUd200, Result, ok, raise, Error, device_error,
  cmd, command, stop_streaming, set_segment_mode, segment_mode_fullseg,
}
use recdyud.Device.Lifecycle.Text.{ascii_text, before_nul, strip}

abbrev pub ep_command_out : ℕ
ep_command_out = 0x02

abbrev pub ep_response_in : ℕ
ep_response_in = 0x84

abbrev pub ep_ts_in : ℕ
ep_ts_in = 0x86

abbrev pub firmware_needs_reinit : ℕ
firmware_needs_reinit = 0x01000502

-- `_CMD_INIT` and `_CMD_INIT_NEW`
abbrev pub cmd_init : List ℕ
cmd_init =
    0x0f ∷ 0xf0 ∷ 0xe0 ∷ 0x20 ∷ 0 ∷ 0 ∷ 0 ∷ 0 ∷ 0x23 ∷ 0x8d ∷ 0xc0 ∷ 0xd0 ∷ 0x0e ∷ 0xd0 ∷ 0x38
    ∷ 0x75 ∷ 0xe8 ∷ 0x38 ∷ 0xdf ∷ 0xeb ∷ 0x33 ∷ 0x7d ∷ 0x39 ∷ 0x52 ∷ 0xe3 ∷ 0x78 ∷ 0xeb ∷ 0xd1
    ∷ 0xb7 ∷ 0x84 ∷ 0xef ∷ 0x65 ∷ 0x00 ∷ 0x9a ∷ 0x0f ∷ 0x3a ∷ []

abbrev pub cmd_init_new : List ℕ
cmd_init_new =
    0x0f ∷ 0xf0 ∷ 0xe0 ∷ 0x20 ∷ 0 ∷ 0 ∷ 0 ∷ 0 ∷ 0x7b ∷ 0x36 ∷ 0x51 ∷ 0xe5 ∷ 0x21 ∷ 0x7c ∷ 0x7b
    ∷ 0x1c ∷ 0xe8 ∷ 0x38 ∷ 0xdf ∷ 0xeb ∷ 0x33 ∷ 0x7d ∷ 0x39 ∷ 0x52 ∷ 0xe3 ∷ 0x78 ∷ 0xeb ∷ 0xd1
    ∷ 0xb7 ∷ 0x84 ∷ 0xef ∷ 0x65 ∷ 0x00 ∷ 0x00 ∷ 0x00 ∷ 0x00 ∷ []

-- More of the USB library: `none` and a `false` are an exception that the code passes over, and an
-- error number is that of a USBError.
pub record Bus (U : Type 0) : Type 0 where
  pub usb : Usb U
  pub clear : U → ℕ → U × Code
  pub read_from : U → ℕ → U × Option (List ℕ)
  pub is_kernel_driver_active : U → U × Option Bool
  pub detach_kernel_driver : U → U × Bool
  pub get_active_configuration : U → U × Option ℕ
  pub set_configuration : U → U × Option ℕ
  pub claim_interface : U → U × Option ℕ
  pub release_interface : U → U × Bool
  pub dispose_resources : U → U

-- The object, with the attributes that the other operations leave alone.
pub record Handle (U : Type 0) : Type 0 where
  pub tuner : DyUd200 U
  pub claimed : Bool
  pub firmware : Option ℕ
  pub serial : Option (List ℕ)

pub data ClaimError : Type 0 where
  device_busy : ClaimError
  failed : Error → ClaimError

-- How `open_device` ends: with the objects that it has tried before, and an initialised one; or
-- with an exception. A device that it has not come to is untouched.
pub data Opening (U : Type 0) : Type 0 where
  opened : List (Handle U) → Handle U → Opening U
  raised : List (Handle U) → ClaimError → Opening U

-- What of the error numbers: EBUSY, or EACCES and any other.
unfoldable pub claim_error : ℕ → ClaimError
claim_error errno = if errno == 16 then device_busy else failed device_error

unfoldable pub firmware_of : Result (List ℕ) → Result ℕ
firmware_of (raise e) = raise e
firmware_of (ok res) = ok (int_from_bytes (slice res 2 6))

unfoldable pub serial_of : Result (List ℕ) → Result (List ℕ)
unfolding ascii_text before_nul strip
serial_of (raise e) = raise e
serial_of (ok res) = ok (strip (ascii_text (before_nul (slice res 2 18))))

-- One statement after another.
unfoldable pub and_then {ℓ} :
    {U : Type 0} {A : Type ℓ}
    → Handle U × Result A
    → (Handle U → A → Handle U × Result (Unit {0}))
    → Handle U × Result (Unit {0})
and_then (h, raise e) next = (h, raise e)
and_then (h, ok a) next = next h a

module _ {U : Type 0} where
  -- An operation of the tuner, as one of the object.
  unfoldable pub with_tuner : Handle U → DyUd200 U × Result (List ℕ) → Handle U × Result (List ℕ)
  with_tuner h (d, r) = (record h { tuner = d }, r)

  unfoldable pub set_usb : Handle U → U → Handle U
  set_usb h u = record h { tuner = record (h.tuner) { usb = u } }

  -- `_clear_halt`: only a device that is gone raises.
  unfoldable pub halt_cleared : Handle U → Code → Handle U × Result (Unit {0})
  halt_cleared h no_device = (h, raise device_error)
  halt_cleared h success = (h, ok tt)
  halt_cleared h timed_out = (h, ok tt)
  halt_cleared h other = (h, ok tt)

module _ {U : Type 0} (bus : Bus U) where
  -- A kernel driver, if one is active, is detached; an exception passes.
  unfoldable pub detach : U → U
  detach u =
      let (u', active) = bus.is_kernel_driver_active u in
      elim active [ none ↦ u' | some true ↦ (bus.detach_kernel_driver u').0 | some false ↦ u' ]

  -- The configuration is set if it is unknown or not 1.
  unfoldable pub configure : U → U × Option ℕ
  configure u =
      let (u', cfg) = bus.get_active_configuration u in
      elim cfg [
        | none ↦ bus.set_configuration u'
        | some value ↦ if value == 1 then (u', none) else bus.set_configuration u'
      ]

  unfoldable pub claim_failed : Handle U → U → ℕ → Handle U × Option ClaimError
  unfolding set_usb claim_error
  claim_failed h u errno = (set_usb h (bus.dispose_resources u), some (claim_error errno))

  unfoldable pub claim_configured : Handle U → U × Option ℕ → Handle U × Option ClaimError
  unfolding claim_failed set_usb
  claim_configured h (u, some errno) = claim_failed h u errno
  claim_configured h (u, none) =
      let (u', result) = bus.claim_interface u in
      elim result [
        | some errno ↦ claim_failed h u' errno
        | none ↦ (record (set_usb h u') { claimed = true }, none)
      ]

  -- `_claim`; `none` where it returns.
  unfoldable pub claim : Handle U → Handle U × Option ClaimError
  unfolding claim_configured detach configure
  claim h = claim_configured h (configure (detach h.tuner.usb))

  -- `_drain`, with the rounds that are left and the total so far.
  unfoldable pub drain_loop : ℕ → ℕ → U → ℕ → U × ℕ
  drain_loop zero endpoint u total = (u, total)
  drain_loop (suc rounds) endpoint u total =
      let (u', result) = bus.read_from u endpoint in
      let rest = λ (n : ℕ). drain_loop rounds endpoint u' (total + n) in
      elim result [ none ↦ (u', total) | some bytes ↦ rest (length bytes) ]

  unfoldable pub drain : Handle U → ℕ → Handle U × ℕ
  unfolding drain_loop set_usb
  drain h endpoint = let (u, total) = drain_loop 64 endpoint h.tuner.usb 0 in (set_usb h u, total)

  unfoldable pub clear_halt : Handle U → ℕ → Handle U × Result (Unit {0})
  unfolding set_usb halt_cleared
  clear_halt h endpoint =
      let (u, code) = bus.clear h.tuner.usb endpoint in halt_cleared (set_usb h u) code

  unfoldable pub release : Handle U → Handle U
  unfolding set_usb
  release h =
      let released = (bus.release_interface h.tuner.usb).0 in
      if h.claimed
      then record (set_usb h (bus.dispose_resources released)) { claimed = false }
      else set_usb h (bus.dispose_resources h.tuner.usb)

module _ {U : Type 0} (crypto : Crypto) (bus : Bus U) where
  -- A command with `check=False`.
  unfoldable pub run : Handle U → List ℕ → Handle U × Result (List ℕ)
  unfolding with_tuner command
  run h bytes = with_tuner h (command crypto bus.usb h.tuner bytes false)

  unfoldable pub get_firmware_version : Handle U → Handle U × Result ℕ
  unfolding run firmware_of
  get_firmware_version h =
      let (h', res) = run h (cmd 0x9f (replicate 4 0) 4) in (h', firmware_of res)

  unfoldable pub get_serial_number : Handle U → Handle U × Result (List ℕ)
  unfolding run serial_of
  get_serial_number h = let (h', res) = run h (cmd 0x95 (replicate 4 0) 4) in (h', serial_of res)

  -- `stop_streaming`
  unfoldable pub stop : Handle U → Handle U × Result (List ℕ)
  unfolding with_tuner stop_streaming
  stop h = with_tuner h (stop_streaming crypto bus.usb h.tuner)

  -- One of the two initialisation commands, `stop_streaming`, and CMD_INIT_NF.
  unfoldable pub handshake : Handle U → List ℕ → Handle U × Result (Unit {0})
  unfolding and_then run stop
  handshake h init = and_then (run h init) λ h1 _.
      and_then (stop h1) λ h2 _. and_then (run h2 (cmd 0xe3 (replicate 4 0) 4)) λ h3 _. (h3, ok tt)

  -- The firmware that needs CMD_CLOSE and the other initialisation.
  unfoldable pub reinitialize : Handle U → ℕ → Handle U × Result (Unit {0})
  unfolding and_then run handshake
  reinitialize h version =
      if version == firmware_needs_reinit
      then and_then (run h (cmd 0xe2 (replicate 4 0) 4)) (λ h1 _. handshake h1 cmd_init_new)
      else (h, ok tt)

  -- From `get_serial_number` on.
  unfoldable pub identify : Handle U → Handle U × Result (Unit {0})
  unfolding and_then get_serial_number with_tuner set_segment_mode drain
  identify h = and_then (get_serial_number h) λ h1 serial.
      let h2 : Handle U = record h1 { serial = some serial } in
      and_then (with_tuner h2 (set_segment_mode crypto bus.usb h2.tuner segment_mode_fullseg))
        λ h3 _. ((drain bus h3 ep_ts_in).0, ok tt)

  -- From the first command on.
  unfoldable pub negotiate : Handle U → Handle U × Result (Unit {0})
  unfolding and_then handshake get_firmware_version reinitialize identify
  negotiate h = and_then (handshake h cmd_init) λ h1 _.
      and_then (get_firmware_version h1) λ h2 version.
        and_then (reinitialize (record h2 { firmware = some version }) version) λ h3 _. identify h3

  unfoldable pub initialize : Handle U → Handle U × Result (Unit {0})
  unfolding and_then clear_halt drain negotiate
  initialize h = and_then (clear_halt bus h ep_command_out) λ h1 _.
      and_then (clear_halt bus h1 ep_response_in) λ h2 _.
        and_then (clear_halt bus h2 ep_ts_in) λ h3 _. negotiate (drain bus h3 ep_response_in).0

  -- The `try` of `close`. Both commands are short, so all that they raise is a DeviceError, which is
  -- passed over.
  unfoldable pub farewell : Handle U → Handle U × Result (Unit {0})
  unfolding and_then stop run
  farewell h =
      and_then (stop h) λ h1 _. and_then (run h1 (cmd 0xe2 (replicate 4 0) 4)) λ h2 _. (h2, ok tt)

  unfoldable pub close : Handle U → Handle U
  unfolding farewell release
  close h = if h.claimed then release bus (farewell h).0 else release bus h

  -- The `try` around `initialize`.
  unfoldable pub initialized : List (Handle U) → Handle U × Result (Unit {0}) → Opening U
  unfolding close
  initialized tried (h, ok _) = opened tried h
  initialized tried (h, raise e) = raised (tried ++ (close h ∷ [])) (failed e)

  -- The `try` around `_claim`, and what follows; the last argument is the rest of the loop.
  unfoldable pub try_device : List (Handle U) → Handle U × Option ClaimError → Opening U → Opening U
  unfolding initialized initialize
  try_device tried (h, none) rest = initialized tried (initialize h)
  try_device tried (h, some device_busy) rest = rest
  try_device tried (h, some (failed e)) rest = raised (tried ++ (h ∷ [])) (failed e)

  -- The loop over the devices that `_select` gives.
  unfoldable pub open_loop : List (Handle U) → List (Handle U) → Opening U
  unfolding try_device claim
  open_loop tried [] = raised tried device_busy
  open_loop tried (h ∷ handles) =
      let (h', e) = claim bus h in try_device tried (h', e) (open_loop (tried ++ (h' ∷ [])) handles)

  unfoldable pub open_device : List (Handle U) → Opening U
  unfolding open_loop
  open_device handles = open_loop [] handles
