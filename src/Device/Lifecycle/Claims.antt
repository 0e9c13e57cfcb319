-- ===== src/Device/Lifecycle/Claims.antt =====
-- Which device `open_device` of src/recdyud/device.py takes, and that it holds on to no other.
use recdyud.Base.{
  if◌then◌else◌, ℕ, ◌≡◌, refl, ap, sym, subst, ◌∙◌, Bool, true, false, Option, none, some, List, [],
  ◌∷◌, ◌++◌, map, All, All-append, ◌==◌, if-both,
}
use recdyud.Protocol.{Crypto}
use recdyud.Device.{Result, ok, raise, Error}
use recdyud.Device.Lifecycle.{
  Bus, Handle, ClaimError, device_busy, failed, set_usb, claim_failed, claim_configured, claim,
  detach, configure, farewell, release, run, initialize, close, Opening, opened, raised,
  initialized, try_device, open_loop, open_device,
}
use mathlib.Core.List.{append_assoc, append-nil}
use recdyud.Device.Lifecycle.Holds.{Holding, IsFree, initialize-Is, farewell-Is}

module _ {U : Type 0} (crypto : Crypto) (bus : Bus U) (hold : Holding bus) where
  release-IsFree : (h : Handle U) → h.claimed ≡ true → IsFree hold (release bus h)
  unfolding release set_usb
  release-IsFree h held = rw held (
    refl,
    hold.disposes (bus.release_interface h.tuner.usb).0 (hold.released h.tuner.usb),
    hold.disposed (bus.release_interface h.tuner.usb).0,
  )

  pub close-IsFree : (h : Handle U) → h.claimed ≡ true → IsFree hold (close crypto bus h)
  unfolding close
  close-IsFree h held =
      if-both (IsFree hold) h.claimed _ _
        (λ _. release-IsFree (farewell crypto bus h).0 (farewell-Is crypto bus true h held))
        (λ free. absurd (cc (held, free)))

  abbrev Unheld : U → Type 0
  Unheld u = hold.interface u ≡ false

  detach-Unheld : (u : U) → Unheld u → Unheld (detach bus u)
  unfolding detach
  detach-Unheld u p = by_answer (bus.is_kernel_driver_active u).1
    where
      by_answer :
          (active : Option Bool)
          → Unheld (elim active [
            | none ↦ (bus.is_kernel_driver_active u).0
            | some true ↦ (bus.detach_kernel_driver (bus.is_kernel_driver_active u).0).0
            | some false ↦ (bus.is_kernel_driver_active u).0
          ])
      by_answer none = hold.asks u p
      by_answer (some true) = hold.detaches (bus.is_kernel_driver_active u).0 (hold.asks u p)
      by_answer (some false) = hold.asks u p

  configure-Unheld : (u : U) → Unheld u → Unheld (configure bus u).0
  unfolding configure
  configure-Unheld u p = by_answer (bus.get_active_configuration u).1
    where
      u' : U
      u' = (bus.get_active_configuration u).0

      by_answer :
          (cfg : Option ℕ)
          → let t : U × Option ℕ = elim cfg [
            | none ↦ bus.set_configuration u'
            | some value ↦ if value == 1 then (u', none) else bus.set_configuration u'
          ] in
            Unheld t.0
      by_answer none = hold.sets u' (hold.looks u p)
      by_answer (some value) =
          if-both {A = U × Option ℕ} (λ t. Unheld t.0) (value == 1) _ _ (λ _. hold.looks u p)
            (λ _. hold.sets u' (hold.looks u p))

  -- The object after `_claim`: claimed, or as free as it was before.
  abbrev Claimed : Handle U → Handle U × Option ClaimError → Type 0
  Claimed h (h', none) = h'.claimed ≡ true
  Claimed h (h', some e) = IsFree hold h → IsFree hold h'

  claim_configured-Claimed :
      (h : Handle U) (z : U × Option ℕ)
      → (IsFree hold h → Unheld z.0)
      → Claimed h (claim_configured bus h z)
  unfolding claim_configured claim_failed set_usb
  claim_configured-Claimed h (u, some errno) p =
      λ free. (free.0, hold.disposes u (p free), hold.disposed u)
  claim_configured-Claimed h (u, none) p = by_result (bus.claim_interface u).1 refl
    where
      u' : U
      u' = (bus.claim_interface u).0

      by_result :
          (result : Option ℕ)
          → (bus.claim_interface u).1 ≡ result
          → Claimed h (elim result [
            | some errno ↦ claim_failed bus h u' errno
            | none ↦ (record (set_usb h u') { claimed = true }, none)
          ])
      by_result none e = refl
      by_result (some errno) e =
          λ free. (free.0, hold.disposes u' (hold.fails u errno e (p free)), hold.disposed u')

  claim-Claimed : (h : Handle U) → Claimed h (claim bus h)
  unfolding claim
  claim-Claimed h =
      claim_configured-Claimed h (configure bus (detach bus h.tuner.usb))
        (λ free. configure-Unheld _ (detach-Unheld h.tuner.usb free.1))

  -- The object after a `_claim` that found the device busy.
  abbrev pub refused : Handle U → Handle U
  refused h = (claim bus h).0

  abbrev pub IsBusy : Handle U → Type 0
  IsBusy h = (claim bus h).1 ≡ some device_busy

  -- How `open_device` ends on these devices: with the first one that is not in use, claimed and
  -- initialised; with the exception of its `_claim` or of its `initialize`; or with all in use. No
  -- other device that was tried is held on to in the end, nor is the one that failed.
  pub data Opens (devices : List (Handle U)) : Opening U → Type 0 where
    first_free :
        (before : List (Handle U)) (h h' : Handle U) (after : List (Handle U))
        → devices ≡ before ++ (h ∷ after)
        → All IsBusy before
        → (claim bus h).1 ≡ none
        → initialize crypto bus (claim bus h).0 ≡ (h', ok tt)
        → h'.claimed ≡ true
        → All (IsFree hold) (map refused before)
        → Opens devices (opened (map refused before) h')
    not_ready :
        (before : List (Handle U)) (h h' : Handle U) (after : List (Handle U)) (e : Error)
        → devices ≡ before ++ (h ∷ after)
        → All IsBusy before
        → (claim bus h).1 ≡ none
        → initialize crypto bus (claim bus h).0 ≡ (h', raise e)
        → All (IsFree hold) (map refused before ++ (close crypto bus h' ∷ []))
        → Opens devices (raised (map refused before ++ (close crypto bus h' ∷ [])) (failed e))
    not_claimed :
        (before : List (Handle U)) (h : Handle U) (after : List (Handle U)) (e : Error)
        → devices ≡ before ++ (h ∷ after)
        → All IsBusy before
        → (claim bus h).1 ≡ some (failed e)
        → All (IsFree hold) (map refused before ++ (refused h ∷ []))
        → Opens devices (raised (map refused before ++ (refused h ∷ [])) (failed e))
    all_busy :
        All IsBusy devices
        → All (IsFree hold) (map refused devices)
        → Opens devices (raised (map refused devices) device_busy)

  module _ (devices before : List (Handle U)) (h : Handle U) (after : List (Handle U))
      (split : devices ≡ before ++ (h ∷ after)) (busy : All IsBusy before)
      (free : All (IsFree hold) (map refused before)) where
    -- After `initialize`.
    initialized-Opens :
        (z : Handle U × Result (Unit {0}))
        → initialize crypto bus (refused h) ≡ z
        → (claim bus h).1 ≡ none
        → (refused h).claimed ≡ true
        → Opens devices (initialized crypto bus (map refused before) z)
    unfolding initialized
    initialized-Opens (h', ok a) run claims held =
        first_free before h h' after split busy claims run
          (ap (λ (t : Handle U × Result (Unit {0})). t.0.claimed) (sym run)
            ∙ initialize-Is crypto bus true (refused h) held)
          free
    initialized-Opens (h', raise e) run claims held =
        not_ready before h h' after e split busy claims run (
          All-append (IsFree hold) (map refused before) (close crypto bus h' ∷ []) free (
            close-IsFree h' (
                ap (λ (t : Handle U × Result (Unit {0})). t.0.claimed) (sym run)
                ∙ initialize-Is crypto bus true (refused h) held),
            tt,
          ))

    -- After `_claim`.
    try_device-Opens :
        (o : Option ClaimError) (rest : Opening U)
        → (claim bus h).1 ≡ o
        → IsFree hold h
        → (IsBusy h → IsFree hold (refused h) → Opens devices rest)
        → Opens devices (try_device crypto bus (map refused before) (refused h, o) rest)
    unfolding try_device
    try_device-Opens none rest e unclaimed goes_on =
        initialized-Opens (initialize crypto bus (refused h)) refl e
          (subst (λ o. Claimed h (refused h, o)) e (claim-Claimed h))
    try_device-Opens (some device_busy) rest e unclaimed goes_on =
        goes_on e (subst (λ o. Claimed h (refused h, o)) e (claim-Claimed h) unclaimed)
    try_device-Opens (some (failed error)) rest e unclaimed goes_on =
        not_claimed before h after error split busy e (
          All-append (IsFree hold) (map refused before) (refused h ∷ []) free
            (subst (λ o. Claimed h (refused h, o)) e (claim-Claimed h) unclaimed, tt))

  map-append :
      (before : List (Handle U)) (h : Handle U)
      → map refused (before ++ (h ∷ [])) ≡ map refused before ++ (refused h ∷ [])
  map-append [] h = refl
  map-append (x ∷ before) h = ap (◌∷◌ (refused x)) (map-append before h)

  open_loop-Opens :
      (devices before handles : List (Handle U))
      → devices ≡ before ++ handles
      → All IsBusy before
      → All (IsFree hold) (map refused before)
      → All (IsFree hold) handles
      → Opens devices (open_loop crypto bus (map refused before) handles)
  unfolding open_loop
  open_loop-Opens devices before [] split busy free unclaimed =
      let all : before ≡ devices = sym (split ∙ append-nil before) in
      subst (λ xs. Opens devices (raised (map refused xs) device_busy)) (sym all)
        (all_busy (subst (All IsBusy) all busy)
          (subst (λ xs. All (IsFree hold) (map refused xs)) all free))
  open_loop-Opens devices before (h ∷ handles) split busy free (unclaimed, others) =
      try_device-Opens devices before h handles split busy free (claim bus h).1 _ refl unclaimed
        λ is_busy is_free.
          subst (λ tried. Opens devices (open_loop crypto bus tried handles)) (map-append before h)
            (open_loop-Opens devices (before ++ (h ∷ [])) handles
              (split ∙ sym (append_assoc before (h ∷ []) handles))
              (All-append IsBusy before (h ∷ []) busy (is_busy, tt))
              (subst (All (IsFree hold)) (sym (map-append before h))
                (All-append (IsFree hold) (map refused before) (refused h ∷ []) free (is_free, tt)))
              others)

  -- `open_device`, on devices that are free, with a USB library as `Holding` says, returns the first
  -- one that is not in use, claimed and initialised; or it raises what its `_claim` or its
  -- `initialize` raises; or all are in use. Whichever it is, no other device that it has tried is left
  -- claimed: the interface is not held, nor are resources.
  pub open_device-Opens :
      (devices : List (Handle U))
      → All (IsFree hold) devices
      → Opens devices (open_device crypto bus devices)
  unfolding open_device
  open_device-Opens devices unclaimed = open_loop-Opens devices [] devices refl tt tt unclaimed
