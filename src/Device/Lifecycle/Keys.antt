-- ===== src/Device/Lifecycle/Keys.antt =====
-- The key of the commands after `initialize` of src/recdyud/device.py.
use recdyud.Base.{
  ℕ, ◌≡◌, refl, subst, ◌∙◌, Option, some, List, slice, replicate, ◌==◌, Bool-cases, inl, inr,
}
use recdyud.Protocol.{Crypto, encode, plain_frame, padded}
use recdyud.Device.{
  Result, ok, raise, cmd, send, command, stop_streaming, set_segment_mode, segment_mode_fullseg,
}
use recdyud.Device.Lifecycle.{
  Bus, Handle, ep_command_out, ep_response_in, ep_ts_in, firmware_needs_reinit, cmd_init,
  cmd_init_new, and_then, with_tuner, set_usb, drain, clear_halt, run, get_firmware_version,
  get_serial_number, stop, handshake, reinitialize, identify, negotiate, initialize,
}

-- The key in `_CMD_INIT`, which is that in `_CMD_INIT_NEW` too.
abbrev pub brought : List ℕ
brought = slice cmd_init 16 32

module _ {U : Type 0} where
  abbrev pub key_of : Handle U → List ℕ
  key_of h = h.tuner.codec.command_key

  -- The firmware's version that is known, and the key.
  abbrev Has : Option ℕ → List ℕ → Handle U → Type 0
  Has firmware key h = (h.firmware ≡ firmware) × (key_of h ≡ key)

  -- What holds of a result that is not an exception.
  abbrev After {ℓ κ} : {A : Type ℓ} → (Handle U → A → Type κ) → Handle U × Result A → Type κ
  After Q (h, raise e) = Unit {κ}
  After Q (h, ok a) = Q h a

  and_then-After {ℓ κ λ'} :
      {A : Type ℓ} (P : Handle U → A → Type κ) (Q : Handle U → Unit {0} → Type λ')
      (z : Handle U × Result A) (next : Handle U → A → Handle U × Result (Unit {0}))
      → After P z
      → ((h : Handle U) (a : A) → P h a → After Q (next h a))
      → After Q (and_then z next)
  unfolding and_then
  and_then-After P Q (h, raise e) next p goes_on = tt
  and_then-After P Q (h, ok a) next p goes_on = goes_on h a p

  After-weaker {ℓ κ λ'} :
      {A : Type ℓ} (P : Handle U → A → Type κ) (Q : Handle U → A → Type λ')
      → ((h : Handle U) (a : A) → P h a → Q h a)
      → (z : Handle U × Result A) → After P z
      → After Q z
  After-weaker P Q weaker (h, raise e) p = tt
  After-weaker P Q weaker (h, ok a) p = weaker h a p

  -- Whatever the result, if it holds of the object.
  always {ℓ κ} :
      {A : Type ℓ} (Q : Handle U → Type κ) (h : Handle U) (r : Result A)
      → Q h
      → After (λ h' _. Q h') (h, r)
  always Q h (raise e) q = tt
  always Q h (ok a) q = q

module _ {U : Type 0} (crypto : Crypto) (bus : Bus U) where
  -- A command that begins with 0x1f leaves the key, and the initialisation commands bring one.
  run-key :
      (h : Handle U) (code : ℕ)
      → key_of (run crypto bus h (cmd code (replicate 4 0) 4)).0 ≡ key_of h
  unfolding run with_tuner command send encode plain_frame padded cmd
  run-key h code = refl

  run-cmd_init : (h : Handle U) → key_of (run crypto bus h cmd_init).0 ≡ brought
  unfolding run with_tuner command send encode plain_frame padded
  run-cmd_init h = refl

  run-cmd_init_new : (h : Handle U) → key_of (run crypto bus h cmd_init_new).0 ≡ brought
  unfolding run with_tuner command send encode plain_frame padded
  run-cmd_init_new h = refl

  stop-key : (h : Handle U) → key_of (stop crypto bus h).0 ≡ key_of h
  unfolding stop with_tuner stop_streaming command send encode plain_frame padded cmd
  stop-key h = refl

  segment-key :
      (h : Handle U)
      → key_of (with_tuner h (set_segment_mode crypto bus.usb h.tuner segment_mode_fullseg)).0
        ≡ key_of h
  unfolding with_tuner set_segment_mode command send encode plain_frame padded cmd
  segment-key h = refl

  drain-key : (h : Handle U) (endpoint : ℕ) → key_of (drain bus h endpoint).0 ≡ key_of h
  unfolding drain set_usb
  drain-key h endpoint = refl

  module _ (f : Option ℕ) (k : List ℕ) where
    -- After an operation that ends so whatever its result.
    next_holds {ℓ} :
        {A : Type ℓ} (z : Handle U × Result A) (next : Handle U → A → Handle U × Result (Unit {0}))
        → Has f k z.0
        → ((h : Handle U) (a : A) → Has f k h → After (λ h' _. Has f k h') (next h a))
        → After (λ h' _. Has f k h') (and_then z next)
    next_holds z next v goes_on =
        and_then-After (λ h' _. Has f k h') (λ h' _. Has f k h') z next (always (Has f k) z.0 z.1 v)
          goes_on

    handshake-Has :
        (h : Handle U) (init : List ℕ)
        → Has f k (run crypto bus h init).0
        → After (λ h' _. Has f k h') (handshake crypto bus h init)
    unfolding handshake run stop with_tuner
    handshake-Has h init v = next_holds (run crypto bus h init) _ v λ h1 _ v1.
        next_holds (stop crypto bus h1) _ (v1.0, stop-key h1 ∙ v1.1)
          λ h2 _ v2.
            next_holds (run crypto bus h2 (cmd 0xe3 (replicate 4 0) 4)) _
              (v2.0, run-key h2 0xe3 ∙ v2.1) λ h3 _ v3. v3

    identify-Has : (h : Handle U) → Has f k h → After (λ h' _. Has f k h') (identify crypto bus h)
    unfolding identify get_serial_number run with_tuner drain set_usb
    identify-Has h v =
        next_holds (get_serial_number crypto bus h) _ (v.0, run-key h 0x95 ∙ v.1)
          λ h1 serial v1.
            let h2 : Handle U = record h1 { serial = some serial } in
            next_holds
              (with_tuner h2 (set_segment_mode crypto bus.usb h2.tuner segment_mode_fullseg)) _
              (v1.0, segment-key h2 ∙ v1.1) λ h3 _ v3. (v3.0, drain-key h3 ep_ts_in ∙ v3.1)

  reinitialize-Has :
      (h : Handle U) (version : ℕ)
      → Has (some version) brought h
      → After (λ h' _. Has (some version) brought h') (reinitialize crypto bus h version)
  unfolding reinitialize run with_tuner
  reinitialize-Has h version v = elim (Bool-cases (version == firmware_needs_reinit)) [
    | inl same ↦ rw same (
        and_then-After (λ h1 _. h1.firmware ≡ some version) (λ h' _. Has (some version) brought h')
          closed _ (always (λ h1. h1.firmware ≡ some version) closed.0 closed.1 v.0)
          λ h1 _ known.
            handshake-Has (some version) brought h1 cmd_init_new (known, run-cmd_init_new h1))
    | inr differs ↦ rw differs v
  ]
    where
      closed : Handle U × Result (List ℕ)
      closed = run crypto bus h (cmd 0xe2 (replicate 4 0) 4)

  -- What `initialize` has reached when it returns.
  abbrev Initialized : Handle U → Type 0
  Initialized h = (version : ℕ) × Has (some version) brought h

  negotiate-Initialized : (h : Handle U) → After (λ h' _. Initialized h') (negotiate crypto bus h)
  unfolding negotiate get_firmware_version run with_tuner
  negotiate-Initialized h =
      and_then-After (λ h1 _. Has h.firmware brought h1) (λ h' _. Initialized h')
        (handshake crypto bus h cmd_init) _
        (handshake-Has h.firmware brought h cmd_init (refl, run-cmd_init h))
        λ h1 _ v1.
          and_then-After (λ h2 _. key_of h2 ≡ brought) (λ h' _. Initialized h')
            (get_firmware_version crypto bus h1) _
            (always (λ h2. key_of h2 ≡ brought) (get_firmware_version crypto bus h1).0
              (get_firmware_version crypto bus h1).1 (run-key h1 0x9f ∙ v1.1))
            λ h2 version k2.
              let h3 : Handle U = record h2 { firmware = some version } in
              and_then-After (λ h4 _. Has (some version) brought h4) (λ h' _. Initialized h')
                (reinitialize crypto bus h3 version) _ (reinitialize-Has h3 version (refl, k2))
                λ h4 _ v4.
                  After-weaker (λ h' _. Has (some version) brought h') (λ h' _. Initialized h')
                    (λ h' _ v'. (version, v')) (identify crypto bus h4)
                    (identify-Has (some version) brought h4 v4)

  -- `initialize` returns only with the firmware's version read, and with the command key that both
  -- initialisation commands carry, also on the firmware that is initialised a second time.
  pub initialize-key :
      (h h' : Handle U)
      → initialize crypto bus h ≡ (h', ok tt)
      → (version : ℕ) × (h'.firmware ≡ some version) × (key_of h' ≡ brought)
  unfolding initialize
  initialize-key h h' returns =
      let (version, v) = subst (After (λ h' _. Initialized h')) returns (
        any_halt h ep_command_out _ λ h1. any_halt h1 ep_response_in _ λ h2.
          any_halt h2 ep_ts_in _ λ h3. negotiate-Initialized (drain bus h3 ep_response_in).0) in
      (version, v.0, v.1)
    where
      any_halt :
          (h : Handle U) (endpoint : ℕ) (next : Handle U → Unit {0} → Handle U × Result (Unit {0}))
          → ((h1 : Handle U) → After (λ h' _. Initialized h') (next h1 tt))
          → After (λ h' _. Initialized h') (and_then (clear_halt bus h endpoint) next)
      any_halt h endpoint next each =
          and_then-After (λ h1 _. Unit {0}) (λ h' _. Initialized h') (clear_halt bus h endpoint)
            next
            (always (λ h1. Unit {0}) (clear_halt bus h endpoint).0 (clear_halt bus h endpoint).1 tt)
            λ h1 a _. each h1
