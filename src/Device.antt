-- ===== src/Device.antt =====
-- `DyUd200` of src/recdyud/device.py: the commands to the tuner and the reads of its stream. The
-- USB library is a record of functions on a state that it keeps to itself.
pub mod Select
pub mod Lifecycle
pub mod ReadTs
pub mod Reader
pub mod Transmit
pub mod Waiting
mod Runs
use recdyud.Base.{
  ℕ, zero, suc, ◌+◌, ◌-◌, ◌*◌, bit_xor, Bool, true, false, not, ◌||◌, ◌&&◌, Option, none, some,
  List, [], ◌∷◌, ◌++◌, length, get_or, slice, replicate, ltb, leb, ◌==◌, if◌then◌else◌,
  int_from_bytes, to_bytes4,
}
use recdyud.Protocol.{Crypto, CommandCodec, encode, decode, t1_block}
use recdyud.Protocol

abbrev pub ts_max_consecutive_errors : ℕ
ts_max_consecutive_errors = 10

abbrev pub lock_threshold : ℕ
lock_threshold = 8

-- The codes of `libusb_bulk_transfer` that the code tells apart.
pub data Code : Type 0 where
  success timed_out no_device other : Code

pub record Usb (U : Type 0) : Type 0 where
  -- To EP_COMMAND_OUT; `false` is a USBError.
  pub write : U → List ℕ → U × Bool
  -- Up to 512 bytes from EP_RESPONSE_IN; `none` is a USBError.
  pub read : U → U × Option (List ℕ)
  -- From EP_TS_IN: what has arrived, also where the transfer failed.
  pub bulk_read : U → U × (Code × List ℕ)
  -- CLEAR_FEATURE(ENDPOINT_HALT) on EP_TS_IN.
  pub clear_halt : U → U × Code

pub data Error : Type 0 where
  device_error value_error : Error

pub data Result {ℓ} (A : Type ℓ) : Type ℓ where
  ok : A → Result A
  raise : Error → Result A

pub record DyUd200 (U : Type 0) : Type 0 where
  pub usb : U
  pub codec : CommandCodec
  pub bcas_pcb : ℕ
  pub ts_errors : ℕ
  pub ts_consecutive_errors : ℕ

pub record SignalLevel : Type 0 where
  pub valid : Bool
  pub raw : ℕ

unfoldable pub cmd : ℕ → List ℕ → ℕ → List ℕ
cmd code param length = (0x1f ∷ 0xf0 ∷ code ∷ length ∷ []) ++ param

abbrev pub cmd_get_lock_status : List ℕ
cmd_get_lock_status = 0x1f ∷ 0xf0 ∷ 0xb1 ∷ 4 ∷ 0x26 ∷ 0x0a ∷ 0 ∷ 0 ∷ []

abbrev pub cmd_bcas_deactivate : List ℕ
cmd_bcas_deactivate = 0x1f ∷ 0xf0 ∷ 0xf0 ∷ 0x05 ∷ 0x02 ∷ 0x00 ∷ 0x42 ∷ 0x00 ∷ 0x00 ∷ []

abbrev pub cmd_bcas_activate : List ℕ
cmd_bcas_activate = 0x1f ∷ 0xf0 ∷ 0xf0 ∷ 0x05 ∷ 0x02 ∷ 0x00 ∷ 0x41 ∷ 0x00 ∷ 0x00 ∷ []

abbrev pub segment_mode_fullseg : ℕ
segment_mode_fullseg = 0x20000

module _ (crypto : Crypto) where
  -- The checks of a raw response, `check` among them.
  unfoldable pub check_response : Bool → List ℕ → Result (List ℕ)
  check_response check raw = elim (decode crypto raw) [
    | Protocol.raise e ↦ raise device_error
    | Protocol.ok res ↦ if check && not (get_or res 0 0 == 0) then raise device_error else ok res
  ]

  unfoldable pub on_response : Bool → Option (List ℕ) → Result (List ℕ)
  unfolding check_response
  on_response check none = raise device_error
  on_response check (some raw) = check_response check raw

unfoldable pub lock_status : Result (List ℕ) → Result ℕ
lock_status (raise e) = raise e
lock_status (ok res) = if get_or res 0 0 == 0 then ok (get_or res 3 0) else ok 0

unfoldable pub signal_level : Result (List ℕ) → Result SignalLevel
signal_level (raise e) = raise e
signal_level (ok res) =
    if get_or res 0 0 == 0
    then ok (record { valid = not (get_or res 2 0 == 0); raw = int_from_bytes (slice res 3 6) })
    else ok (record { valid = false; raw = 0 })

-- What one round of the loop makes of the card command's result: a `none` is `continue`.
unfoldable pub accept : Result (List ℕ) → Option (Result (List ℕ))
accept (raise value_error) = some (raise value_error)
accept (raise device_error) = none
accept (ok res) =
    if not (get_or res 0 0 == 0) || ltb (get_or res 1 0) 6
    then none
    else (if ltb 124 (7 + get_or res 6 0)
        then none
        else some (ok (slice res 7 (7 + get_or res 6 0))))

-- One statement after another: the next one is not reached if this one raises.
unfoldable pub and_then :
    {U : Type 0}
    → DyUd200 U × Result (List ℕ)
    → (DyUd200 U → DyUd200 U × Result (List ℕ))
    → DyUd200 U × Result (List ℕ)
and_then (d, raise e) next = (d, raise e)
and_then (d, ok res) next = next d

-- Data sets the count of failures in a row back; a read of nothing leaves it.
unfoldable pub received : {U : Type 0} → DyUd200 U → List ℕ → DyUd200 U × Result (List ℕ)
received d [] = (d, ok [])
received d (x ∷ bytes) = (record d { ts_consecutive_errors = 0 }, ok (x ∷ bytes))

module _ {U : Type 0} (crypto : Crypto) (usb : Usb U) where
  open usb use {write, read}

  -- `write` and, if it does not raise, `read`.
  unfoldable pub exchange : U → List ℕ → U × Option (List ℕ)
  exchange u frame = let (u', fine) = write u frame in if fine then read u' else (u', none)

  -- What `command` makes of the result of `encode`.
  unfoldable pub send :
      DyUd200 U → Bool → Protocol.Result (CommandCodec × List ℕ) → DyUd200 U × Result (List ℕ)
  unfolding exchange on_response
  send d check (Protocol.raise e) = (d, raise value_error)
  send d check (Protocol.ok (codec, frame)) =
      let (u, raw) = exchange d.usb frame in
      (record d { usb = u; codec = codec }, on_response crypto check raw)

  unfoldable pub command : DyUd200 U → List ℕ → Bool → DyUd200 U × Result (List ℕ)
  unfolding send
  command d bytes check = send d check (encode crypto d.codec bytes)

  -- `bcas_reset`; the second command is not sent if the first one raises.
  unfoldable pub bcas_reset : DyUd200 U → DyUd200 U × Result (Unit {0})
  unfolding command
  bcas_reset d =
      let (d1, r1) = command d cmd_bcas_deactivate false in
      let (d2, r2) = command d1 cmd_bcas_activate false in
      elim r1 [
        | raise e ↦ (d1, raise e)
        | ok _ ↦ elim r2 [ raise e ↦ (d2, raise e) | ok _ ↦ (record d2 { bcas_pcb = 0 }, ok tt) ]
      ]

  unfoldable pub send_block :
      DyUd200 U → Protocol.Result (List ℕ) → DyUd200 U × Option (Result (List ℕ))
  unfolding accept
  send_block d (Protocol.raise e) = (d, some (raise value_error))
  send_block d (Protocol.ok block) = let (d', res) = command d block false in (d', accept res)

  -- One round: the sequence bit is turned over before the block is made.
  unfoldable pub attempt : DyUd200 U → List ℕ → DyUd200 U × Option (Result (List ℕ))
  unfolding send_block
  attempt d apdu =
      send_block (record d { bcas_pcb = bit_xor d.bcas_pcb 0x40 }) (t1_block apdu d.bcas_pcb)

  unfoldable pub transmit_loop : ℕ → DyUd200 U → List ℕ → DyUd200 U × Result (List ℕ)
  transmit_loop zero d apdu = (d, raise device_error)
  transmit_loop (suc rounds) d apdu =
      let (d', result) = attempt d apdu in
      let rest = transmit_loop rounds d' apdu in elim result [ none ↦ rest | some r ↦ (d', r) ]

  unfoldable pub bcas_transmit : DyUd200 U → List ℕ → ℕ → DyUd200 U × Result (List ℕ)
  unfolding transmit_loop
  bcas_transmit d apdu retries = transmit_loop (retries + 1) d apdu

  unfoldable pub get_lock_status : DyUd200 U → DyUd200 U × Result ℕ
  unfolding command lock_status
  get_lock_status d = let (d', res) = command d cmd_get_lock_status false in (d', lock_status res)

  unfoldable pub get_signal_level : DyUd200 U → DyUd200 U × Result SignalLevel
  unfolding command cmd signal_level
  get_signal_level d =
      let (d', res) = command d (cmd 0xd5 (replicate 4 0) 4) false in (d', signal_level res)

  unfoldable pub set_segment_mode : DyUd200 U → ℕ → DyUd200 U × Result (List ℕ)
  unfolding command cmd
  set_segment_mode d mode = command d (cmd 0xd1 (to_bytes4 mode) 4) true

  unfoldable pub set_frequency : DyUd200 U → ℕ → DyUd200 U × Result (List ℕ)
  unfolding command cmd
  set_frequency d khz = command d (cmd 0xd2 (to_bytes4 khz ++ (0 ∷ 0 ∷ [])) 6) true

  unfoldable pub start_streaming : DyUd200 U → DyUd200 U × Result (List ℕ)
  unfolding command cmd
  start_streaming d = command d (cmd 0xb4 (replicate 4 0) 4) false

  unfoldable pub stop_streaming : DyUd200 U → DyUd200 U × Result (List ℕ)
  unfolding command cmd
  stop_streaming d = command d (cmd 0xb5 (replicate 4 0) 4) false

  unfoldable pub tune : DyUd200 U → ℕ → DyUd200 U × Result (List ℕ)
  unfolding stop_streaming set_segment_mode set_frequency start_streaming and_then
  tune d khz = and_then (stop_streaming d) λ d1.
      and_then (set_segment_mode d1 segment_mode_fullseg)
        λ d2. and_then (set_frequency d2 khz) λ d3. start_streaming d3

module _ {U : Type 0} (usb : Usb U) where
  open usb use {bulk_read, clear_halt}

  -- `_clear_halt(EP_TS_IN)`: only a device that is gone raises.
  unfoldable pub clear_ts : DyUd200 U → List ℕ → DyUd200 U × Result (List ℕ)
  clear_ts d bytes =
      let (u, code) = clear_halt d.usb in
      let d' : DyUd200 U = record d { usb = u } in
      elim code [
        | no_device ↦ (d', raise device_error)
        | success ↦ (d', ok bytes)
        | timed_out ↦ (d', ok bytes)
        | other ↦ (d', ok bytes)
      ]

  unfoldable pub failed : DyUd200 U → List ℕ → DyUd200 U × Result (List ℕ)
  unfolding clear_ts
  failed d bytes =
      let d' : DyUd200 U = record d {
        ts_errors = d.ts_errors + 1;
        ts_consecutive_errors = d.ts_consecutive_errors + 1;
      } in
      if leb ts_max_consecutive_errors (d.ts_consecutive_errors + 1)
      then (d', raise device_error)
      else clear_ts d' bytes

  unfoldable pub on_read : Code → DyUd200 U → List ℕ → DyUd200 U × Result (List ℕ)
  unfolding received failed
  on_read success d bytes = received d bytes
  on_read timed_out d bytes = received d bytes
  on_read no_device d bytes = (d, raise device_error)
  on_read other d bytes = failed d bytes

  unfoldable pub read_ts : DyUd200 U → DyUd200 U × Result (List ℕ)
  unfolding on_read
  read_ts d = let (u, (code, bytes)) = bulk_read d.usb in on_read code (record d { usb = u }) bytes
