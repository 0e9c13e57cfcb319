-- ===== src/Device/Reader.antt =====
-- The tuner's side of `bcas_reset` and `bcas_transmit` of src/recdyud/device.py: a tuner with a card
-- reader, as a USB library that answers at once.
pub mod Answers
pub mod Requests
pub mod Through
mod Runs
use recdyud.Base.{
  ℕ, zero, suc, ◌+◌, ◌-◌, ◌≤◌, ◌<◌, ◌≡◌, refl, ap, ap₂, sym, ◌∙◌, bit_xor, Bool, true, false, not,
  ◌||◌, ◌&&◌, Option, none, some, List, [], ◌∷◌, ◌++◌, length, length-append, length-replicate,
  take, drop, take-append, get_or, slice, replicate, ltb, leb, ◌==◌, if◌then◌else◌, to_bytes2,
  to_bytes4, arith,
}
use recdyud.Protocol.{Crypto, CommandCodec, padded, encode, default_key, t1_block, xor_bytes}
use recdyud.Protocol
use recdyud.Protocol.Session.{receive, receive_lem}
use recdyud.Protocol.Response.{decode_response}
use recdyud.Device.{
  Usb, Code, success, DyUd200, Result, ok, raise, Error, on_response, check_response, exchange,
  send, command, accept, send_block, attempt, transmit_loop, bcas_transmit, bcas_reset,
  cmd_bcas_activate, cmd_bcas_deactivate,
}

-- A card: what it answers, which fits into a response, and what a reset does to it.
pub record Card (C : Type 0) : Type 0 where
  pub answer : C → List ℕ → C × List ℕ
  pub answer_fits : (c : C) (apdu : List ℕ) → length (answer c apdu).1 ≤ 117
  pub reset : C → C

-- The tuner: its key, the card, the sequence byte that the reader waits for, and the response that
-- it holds ready.
pub record Tuner (C : Type 0) : Type 0 where
  pub codec : CommandCodec
  pub card : C
  pub sequence : ℕ
  pub ready : Option (List ℕ)

-- The 124 bytes of a response: status, length, and from the seventh byte on the card's answer.
unfoldable pub response : List ℕ → List ℕ
response bytes =
    0
    ∷ (length bytes + 6)
    ∷ 0
    ∷ 0
    ∷ 0
    ∷ 0
    ∷ length bytes
    ∷ (bytes ++ replicate (117 - length bytes) 0)

module _ {C : Type 0} (crypto : Crypto) (card : Card C) where
  open crypto use {crc32, encrypt}

  -- A command to the reader, told by its sixth byte: a block for the card, with the sequence byte
  -- that the reader waits for; the activation, a reset; or another one, which changes nothing.
  unfoldable pub perform : Tuner C → List ℕ → Tuner C × List ℕ
  perform u bytes =
      let (c, reply) = card.answer u.card (slice bytes 12 (12 + get_or bytes 11 0)) in
      if get_or bytes 6 0 == 0x31
      then (if get_or bytes 10 0 == u.sequence
          then (record u { card = c; sequence = bit_xor u.sequence 0x40 }, response reply)
          else (u, 1 ∷ replicate 123 0))
      else (if get_or bytes 6 0 == 0x41
          then (record u { card = card.reset u.card; sequence = 0 }, replicate 124 0)
          else (u, replicate 124 0))

  unfoldable pub reply_to : Tuner C → Option (CommandCodec × List ℕ) → Tuner C × Bool
  unfolding perform
  reply_to u none = (record u { ready = none }, true)
  reply_to u (some (codec, bytes)) =
      let (u', plain) = perform u bytes in
      (
        record u' {
          codec = codec;
          ready = some (encrypt default_key (plain ++ to_bytes4 (crc32 plain)));
        },
        true,
      )

  unfoldable pub reader : Usb (Tuner C)
  unfolding reply_to
  reader = record {
    write = λ u wire. reply_to u (receive crypto u.codec wire);
    read = λ u. (u, u.ready);
    bulk_read = λ u. (u, (success, []));
    clear_halt = λ u. (u, success);
  }

  -- Both sides have the same key and the same sequence byte, and the card is this one.
  pub record Synced (d : DyUd200 (Tuner C)) (c : C) : Type 0 where
    pub key : d.codec ≡ d.usb.codec
    pub sequence : d.bcas_pcb ≡ d.usb.sequence
    pub in_reader : d.usb.card ≡ c
