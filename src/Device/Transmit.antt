-- ===== src/Device/Transmit.antt =====
-- The retries of `bcas_transmit` of src/recdyud/device.py, and the sequence bit of its blocks.
use recdyud.Base.{
  ℕ, zero, suc, ◌+◌, ◌<◌, ◌≡◌, refl, ap, ◌∙◌, bit_xor, Bool, false, Option, none, some, List, arith,
}
use recdyud.Protocol.{Crypto, CommandCodec, t1_block}
use recdyud.Protocol
use recdyud.Device.{
  Usb, DyUd200, Result, raise, device_error, send, command, send_block, attempt, transmit_loop,
  bcas_transmit,
}

-- The sequence bit after so many blocks.
pub toggled : ℕ → ℕ → ℕ
toggled zero pcb = pcb
toggled (suc k) pcb = toggled k (bit_xor pcb 0x40)

module _ {U : Type 0} (crypto : Crypto) (usb : Usb U) where
  send-bcas_pcb :
      (d : DyUd200 U) (check : Bool) (r : Protocol.Result (CommandCodec × List ℕ))
      → (send crypto usb d check r).0.bcas_pcb ≡ d.bcas_pcb
  unfolding send
  send-bcas_pcb d check (Protocol.raise e) = refl
  send-bcas_pcb d check (Protocol.ok p) = refl

  send_block-bcas_pcb :
      (d : DyUd200 U) (r : Protocol.Result (List ℕ))
      → (send_block crypto usb d r).0.bcas_pcb ≡ d.bcas_pcb
  unfolding send_block command
  send_block-bcas_pcb d (Protocol.raise e) = refl
  send_block-bcas_pcb d (Protocol.ok block) = send-bcas_pcb d false _

  attempt-bcas_pcb :
      (d : DyUd200 U) (apdu : List ℕ)
      → (attempt crypto usb d apdu).0.bcas_pcb ≡ bit_xor d.bcas_pcb 0x40
  unfolding attempt
  attempt-bcas_pcb d apdu = send_block-bcas_pcb _ (t1_block apdu d.bcas_pcb)

  -- So many rounds that end in `continue`.
  pub data Retried (apdu : List ℕ) : ℕ → DyUd200 U → DyUd200 U → Type 0 where
    done : {d : DyUd200 U} → Retried apdu 0 d d
    again :
        {k : ℕ} {d d' d'' : DyUd200 U}
        → attempt crypto usb d apdu ≡ (d', none)
        → Retried apdu k d' d''
        → Retried apdu (suc k) d d''

  -- How `transmit_loop` ends: with the first round that has a result, or after the last one.
  pub data Transmits (apdu : List ℕ) (rounds : ℕ) (d : DyUd200 U)
      : DyUd200 U × Result (List ℕ) → Type 0 where
    answers :
        (k : ℕ) (d1 d2 : DyUd200 U) (r : Result (List ℕ))
        → k < rounds
        → Retried apdu k d d1
        → attempt crypto usb d1 apdu ≡ (d2, some r)
        → d2.bcas_pcb ≡ toggled (suc k) (d.bcas_pcb)
        → Transmits apdu rounds d (d2, r)
    gives_up :
        (d1 : DyUd200 U)
        → Retried apdu rounds d d1
        → d1.bcas_pcb ≡ toggled rounds (d.bcas_pcb)
        → Transmits apdu rounds d (d1, raise device_error)

  after_attempt :
      (rounds : ℕ) (d : DyUd200 U) (apdu : List ℕ) (d' : DyUd200 U) (o : Option (Result (List ℕ)))
      → attempt crypto usb d apdu ≡ (d', o)
      → d'.bcas_pcb ≡ bit_xor d.bcas_pcb 0x40
      → (rest : DyUd200 U × Result (List ℕ)) → Transmits apdu rounds d' rest
      → Transmits apdu (suc rounds) d (elim o [ none ↦ rest | some r ↦ (d', r) ])
  unfolding toggled
  after_attempt rounds d apdu d' (some r) run bit rest t =
      answers 0 d d' r (omega arith) done run bit
  after_attempt rounds d apdu d' none run bit rest (answers k d1 d2 r lt retried last bit') =
      answers (suc k) d1 d2 r (omega arith) (again run retried) last
        (bit' ∙ ap (λ p. toggled (suc k) p) bit)
  after_attempt rounds d apdu d' none run bit rest (gives_up d1 retried bit') =
      gives_up d1 (again run retried) (bit' ∙ ap (toggled rounds) bit)

  transmit_loop-Transmits :
      (rounds : ℕ) (d : DyUd200 U) (apdu : List ℕ)
      → Transmits apdu rounds d (transmit_loop crypto usb rounds d apdu)
  unfolding transmit_loop toggled
  transmit_loop-Transmits zero d apdu = gives_up d done refl
  transmit_loop-Transmits (suc rounds) d apdu =
      after_attempt rounds d apdu (attempt crypto usb d apdu).0 ((attempt crypto usb d apdu).1) refl
        (attempt-bcas_pcb d apdu)
        (transmit_loop crypto usb rounds (attempt crypto usb d apdu).0 apdu)
        (transmit_loop-Transmits rounds (attempt crypto usb d apdu).0 apdu)

  -- `bcas_transmit` ends with the result of its first round that has one, within `retries + 1`
  -- rounds, or with a DeviceError after that many rounds without one. The sequence bit of the next
  -- block has then been turned over once for each round made, also for those that failed.
  pub bcas_transmit-Transmits :
      (d : DyUd200 U) (apdu : List ℕ) (retries : ℕ)
      → Transmits apdu (retries + 1) d (bcas_transmit crypto usb d apdu retries)
  unfolding bcas_transmit
  bcas_transmit-Transmits d apdu retries = transmit_loop-Transmits (retries + 1) d apdu
