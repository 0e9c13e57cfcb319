-- ===== src/Device/Lifecycle/Holds.antt =====
-- What the USB library holds of a `DyUd200` of src/recdyud/device.py, and that its operations between
-- `_claim` and `release` leave it claimed.
use recdyud.Base.{ℕ, ◌≡◌, Bool, false, some, List, ◌==◌, if-both}
use recdyud.Protocol.{Crypto}
use recdyud.Device.{
  Code, success, timed_out, no_device, other, Result, ok, raise, set_segment_mode,
  segment_mode_fullseg,
}
use recdyud.Device.Lifecycle.{
  Bus, Handle, and_then, with_tuner, set_usb, drain, halt_cleared, clear_halt, farewell, run,
  get_firmware_version, get_serial_number, stop, handshake, reinitialize, identify, negotiate,
  initialize,
}

-- What the USB library is relied on for: whether it holds the interface of the device, and whether it
-- has resources allocated for it. Releasing the interface ends the first, disposing of the resources
-- the second; no other call makes it hold the interface but a `claim_interface` that succeeds.
pub record Holding {U : Type 0} (bus : Bus U) : Type 0 where
  pub interface : U → Bool
  pub resources : U → Bool
  pub released : (u : U) → interface (bus.release_interface u).0 ≡ false
  pub disposed : (u : U) → resources (bus.dispose_resources u) ≡ false
  pub disposes : (u : U) → interface u ≡ false → interface (bus.dispose_resources u) ≡ false
  pub asks : (u : U) → interface u ≡ false → interface (bus.is_kernel_driver_active u).0 ≡ false
  pub detaches : (u : U) → interface u ≡ false → interface (bus.detach_kernel_driver u).0 ≡ false
  pub looks : (u : U) → interface u ≡ false → interface (bus.get_active_configuration u).0 ≡ false
  pub sets : (u : U) → interface u ≡ false → interface (bus.set_configuration u).0 ≡ false
  pub fails :
      (u : U) (errno : ℕ)
      → (bus.claim_interface u).1 ≡ some errno
      → interface u ≡ false
      → interface (bus.claim_interface u).0 ≡ false

module _ {U : Type 0} where
  -- The object is not claimed, and the USB library neither holds the interface nor has resources.
  abbrev pub IsFree : {bus : Bus U} → Holding bus → Handle U → Type 0
  IsFree hold h =
      (h.claimed ≡ false)
      × (hold.interface h.tuner.usb ≡ false)
      × (hold.resources h.tuner.usb ≡ false)

  -- A property of the object that holds before and after each statement.
  and_then-keeps {ℓ κ} :
      {A : Type ℓ} (P : Handle U → Type κ) (z : Handle U × Result A)
      (next : Handle U → A → Handle U × Result (Unit {0}))
      → P z.0
      → ((h : Handle U) (a : A) → P h → P (next h a).0)
      → P (and_then z next).0
  unfolding and_then
  and_then-keeps P (h, raise e) next p goes_on = p
  and_then-keeps P (h, ok a) next p goes_on = goes_on h a p

module _ {U : Type 0} (crypto : Crypto) (bus : Bus U) (b : Bool) where
  abbrev pub Is : Handle U → Type 0
  Is h = h.claimed ≡ b

  clear_halt-Is : (h : Handle U) (endpoint : ℕ) → Is h → Is (clear_halt bus h endpoint).0
  unfolding clear_halt set_usb halt_cleared
  clear_halt-Is h endpoint p =
      by_code (set_usb h (bus.clear h.tuner.usb endpoint).0) (bus.clear h.tuner.usb endpoint).1 p
    where
      by_code : (h : Handle U) (code : Code) → Is h → Is (halt_cleared h code).0
      by_code h no_device p = p
      by_code h success p = p
      by_code h timed_out p = p
      by_code h other p = p

  handshake-Is : (h : Handle U) (init : List ℕ) → Is h → Is (handshake crypto bus h init).0
  unfolding handshake run stop with_tuner
  handshake-Is h init p = and_then-keeps Is (run crypto bus h init) _ p λ h1 _ p1.
      and_then-keeps Is (stop crypto bus h1) _ p1
        λ h2 _ p2. and_then-keeps Is (run crypto bus h2 _) _ p2 λ h3 _ p3. p3

  reinitialize-Is : (h : Handle U) (version : ℕ) → Is h → Is (reinitialize crypto bus h version).0
  unfolding reinitialize run with_tuner
  reinitialize-Is h version p =
      if-both {A = Handle U × Result (Unit {0})} (λ t. Is t.0) (version == _) _ _
        (λ same. and_then-keeps Is (run crypto bus h _) _ p λ h1 _ p1. handshake-Is h1 _ p1)
        (λ differs. p)

  identify-Is : (h : Handle U) → Is h → Is (identify crypto bus h).0
  unfolding identify get_serial_number run with_tuner drain set_usb
  identify-Is h p = and_then-keeps Is (get_serial_number crypto bus h) _ p λ h1 serial p1.
      let h2 : Handle U = record h1 { serial = some serial } in
      and_then-keeps Is
        (with_tuner h2 (set_segment_mode crypto bus.usb h2.tuner segment_mode_fullseg)) _ p1
        λ h3 _ p3. p3

  pub initialize-Is : (h : Handle U) → Is h → Is (initialize crypto bus h).0
  unfolding initialize negotiate get_firmware_version run with_tuner drain set_usb
  initialize-Is h p = and_then-keeps Is (clear_halt bus h _) _ (clear_halt-Is h _ p) λ h1 _ p1.
      and_then-keeps Is (clear_halt bus h1 _) _ (clear_halt-Is h1 _ p1) λ h2 _ p2.
        and_then-keeps Is (clear_halt bus h2 _) _ (clear_halt-Is h2 _ p2) λ h3 _ p3.
          and_then-keeps Is (handshake crypto bus _ _) _ (handshake-Is _ _ p3) λ h4 _ p4.
            and_then-keeps Is (get_firmware_version crypto bus h4) _ p4 λ h5 version p5.
              and_then-keeps Is (reinitialize crypto bus _ version) _ (reinitialize-Is _ version p5)
                λ h6 _ p6. identify-Is h6 p6

  pub farewell-Is : (h : Handle U) → Is h → Is (farewell crypto bus h).0
  unfolding farewell run stop with_tuner
  farewell-Is h p =
      and_then-keeps Is (stop crypto bus h) _ p
        λ h1 _ p1. and_then-keeps Is (run crypto bus h1 _) _ p1 λ h2 _ p2. p2
