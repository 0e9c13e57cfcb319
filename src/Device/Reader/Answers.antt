-- ===== src/Device/Reader/Answers.antt =====
-- `bcas_transmit` and `bcas_reset` of src/recdyud/device.py over a tuner with a card reader.
use recdyud.Base.{
  ℕ, suc, ◌+◌, ◌-◌, ◌≤◌, ◌≡◌, refl, ap, sym, ◌∙◌, bit_xor, Bool, true, false, Option, none, some,
  List, [], ◌∷◌, ◌++◌, length, length-append, length-replicate, take, take-append, get_or, slice,
  replicate, ltb, ◌==◌, ==_iff, if◌then◌else◌, if-both, to_bytes2, to_bytes4, arith,
}
use recdyud.Protocol.{
  Crypto, CommandCodec, padded, encode, decode, default_key, t1_block, xor_bytes,
}
use recdyud.Protocol
use recdyud.Protocol.Session.{receive, receive_lem}
use recdyud.Protocol.Response.{decode_response}
use recdyud.Device.{
  DyUd200, Result, ok, raise, device_error, on_response, check_response, exchange, send, command,
  accept, send_block, attempt, transmit_loop, bcas_transmit, bcas_reset, cmd_bcas_activate,
  cmd_bcas_deactivate,
}
use recdyud.Device.Reader.{Card, Tuner, response, perform, reply_to, reader, Synced}
use mathlib.Core.List.{append_assoc, append-nil}

length-response : (bytes : List ℕ) → length bytes ≤ 117 → length (response bytes) ≡ 124
unfolding response
length-response bytes fits = omega (
  arith,
  length-append bytes (replicate (117 - length bytes) 0),
  length-replicate {A = ℕ} (117 - length bytes) 0,
)

-- The command that `t1_block` makes.
abbrev block_command : List ℕ → ℕ → List ℕ
block_command apdu pcb =
    let block = 0x00 ∷ pcb ∷ length apdu ∷ apdu in
    (0x1f ∷ 0xf0 ∷ 0xf0 ∷ (length apdu + 9) ∷ 0x02 ∷ 0x00 ∷ 0x31 ∷ [])
    ++ (to_bytes2 (length apdu + 4) ++ (block ++ (xor_bytes 0 block ∷ [])))

t1_block-block_command :
    (apdu : List ℕ) (pcb : ℕ)
    → length apdu ≤ 115
    → t1_block apdu pcb ≡ Protocol.ok (block_command apdu pcb)
unfolding t1_block
t1_block-block_command apdu pcb h = let e : ltb 115 (length apdu) ≡ false = ground arith in rw e

slice-block_command :
    (apdu : List ℕ) (pcb : ℕ) → slice (padded (block_command apdu pcb)) 12 (12 + length apdu) ≡ apdu
unfolding padded
slice-block_command apdu pcb =
    let n : 12 + length apdu - 12 ≡ length apdu = omega arith in
    rw n (ap (take (length apdu)) (append_assoc apdu _ _) ∙ take-append (length apdu) apdu _ refl)

accept-response :
    (bytes tail : List ℕ)
    → length bytes ≤ 117
    → accept (ok (response bytes ++ tail)) ≡ some (ok bytes)
unfolding accept response
accept-response bytes tail h =
    let long : ltb (length bytes + 6) 6 ≡ false = ground arith in
    let fits : ltb 124 (7 + length bytes) ≡ false = ground arith in
    let n : 7 + length bytes - 7 ≡ length bytes = omega arith in
    rw (long, fits, n)
      (ap (λ xs. some (ok xs))
        (ap (take (length bytes)) (append_assoc bytes _ tail)
          ∙ take-append (length bytes) bytes _ refl))

module _ {C : Type 0} (crypto : Crypto) (card : Card C) where
  open crypto use {crc32, encrypt}

  length-perform : (u : Tuner C) (bytes : List ℕ) → length (perform crypto card u bytes).1 ≡ 124
  unfolding perform
  length-perform u bytes =
      if-both {A = Tuner C × List ℕ} (λ t. length t.1 ≡ 124) (get_or bytes 6 0 == 0x31) _ _
        (λ h.
          if-both {A = Tuner C × List ℕ} (λ t. length t.1 ≡ 124) (get_or bytes 10 0 == u.sequence) _
            _ (λ g. length-response _ (card.answer_fits u.card _)) (λ g. refl))
        (λ h.
          if-both {A = Tuner C × List ℕ} (λ t. length t.1 ≡ 124) (get_or bytes 6 0 == 0x41) _ _
            (λ g. refl) (λ g. refl))

  -- The response under the fixed key.
  abbrev sealed : List ℕ → List ℕ
  sealed plain = encrypt default_key (plain ++ to_bytes4 (crc32 plain))

  -- The two objects after a command.
  abbrev after : DyUd200 (Tuner C) → CommandCodec → Tuner C × List ℕ → DyUd200 (Tuner C)
  after d codec (u, plain) = record d {
    usb = record u { codec = codec; ready = some (sealed plain) };
    codec = codec;
  }

  -- A command, whatever the tuner makes of it.
  command-perform :
      (d : DyUd200 (Tuner C)) (bytes : List ℕ)
      → d.codec ≡ d.usb.codec
      → length bytes ≤ 128
      → (codec : CommandCodec) × (command crypto (reader crypto card) d bytes false ≡ (
        after d codec (perform crypto card d.usb (padded bytes)),
        ok (
            (perform crypto card d.usb (padded bytes)).1
            ++ to_bytes4 (crc32 (perform crypto card d.usb (padded bytes)).1)),
      ))
  unfolding command send exchange on_response check_response reader reply_to
  command-perform d bytes key fits =
      let (codec, wire, sent, _, got) = (receive_lem crypto d.codec bytes).0 fits in
      let got' : receive crypto d.usb.codec wire ≡ some (codec, padded bytes) =
        ap (λ c. receive crypto c wire) (sym key) ∙ got in
      let plain = (perform crypto card d.usb (padded bytes)).1 in
      let opened =
        ap (decode crypto) (sym (append-nil (sealed plain)))
        ∙ decode_response crypto plain [] (length-perform d.usb (padded bytes)) in
      (
        codec,
        ap (send crypto (reader crypto card) d false) sent
            ∙ ap (λ o. answered codec (exchanged (reply_to crypto card d.usb o))) got'
            ∙ ap (λ r. (after d codec (perform crypto card d.usb (padded bytes)), checked r))
                opened,
      )
    where
      exchanged : Tuner C × Bool → Tuner C × Option (List ℕ)
      exchanged (u, fine) = if fine then (u, u.ready) else (u, none)

      answered : CommandCodec → Tuner C × Option (List ℕ) → DyUd200 (Tuner C) × Result (List ℕ)
      answered codec (u, raw) = (record d { usb = u; codec = codec }, on_response crypto false raw)

      checked : Protocol.Result (List ℕ) → Result (List ℕ)
      checked (Protocol.raise e) = raise device_error
      checked (Protocol.ok res) = ok res

  perform-block_command :
      (u : Tuner C) (apdu : List ℕ) (pcb : ℕ)
      → pcb ≡ u.sequence
      → perform crypto card u (padded (block_command apdu pcb)) ≡ (
        record u { card = (card.answer u.card apdu).0; sequence = bit_xor u.sequence 0x40 },
        response (card.answer u.card apdu).1,
      )
  unfolding perform padded
  perform-block_command u apdu pcb e =
      let waited : (pcb == u.sequence) ≡ true = (==_iff pcb u.sequence).1 e in
      rw waited (
        ap
          (λ xs. (
            record u { card = (card.answer u.card xs).0; sequence = bit_xor u.sequence 0x40 },
            response (card.answer u.card xs).1,
          ))
          (slice-block_command apdu pcb))

  attempt-answer :
      (d : DyUd200 (Tuner C)) (c : C) (apdu : List ℕ)
      → Synced crypto card d c
      → length apdu ≤ 115
      → (d' : DyUd200 (Tuner C)) × (attempt crypto (reader crypto card) d apdu
          ≡ (d', some (ok (card.answer c apdu).1)))
        × Synced crypto card d' (card.answer c apdu).0
  unfolding attempt send_block
  attempt-answer d c apdu s fits =
      let turned : DyUd200 (Tuner C) = record d { bcas_pcb = bit_xor d.bcas_pcb 0x40 } in
      let bytes = block_command apdu d.bcas_pcb in
      let u : Tuner C = record d.usb {
        card = (card.answer d.usb.card apdu).0;
        sequence = bit_xor d.usb.sequence 0x40;
      } in
      let reply = (card.answer d.usb.card apdu).1 in
      let (codec, run) = command-perform turned bytes s.key (
        omega (
          arith,
          length-append apdu (xor_bytes 0 (0x00 ∷ d.bcas_pcb ∷ length apdu ∷ apdu) ∷ []),
        )) in
      (
        after turned codec (u, response reply),
        ap (send_block crypto (reader crypto card) turned)
              (t1_block-block_command apdu d.bcas_pcb fits)
            ∙ ap (λ (t : DyUd200 (Tuner C) × Result (List ℕ)). (t.0, accept t.1)) run
            ∙ ap
                (λ (t : Tuner C × List ℕ).
                  (after turned codec t, accept (ok (t.1 ++ to_bytes4 (crc32 t.1)))))
                (perform-block_command d.usb apdu d.bcas_pcb s.sequence)
            ∙ ap (λ o. (after turned codec (u, response reply), o))
                (accept-response reply (to_bytes4 (crc32 (response reply)))
                    (card.answer_fits d.usb.card apdu)
                  ∙ ap (λ x. some (ok (card.answer x apdu).1)) s.in_reader),
        record {
          key = refl;
          sequence = ap (λ p. bit_xor p 0x40) s.sequence;
          in_reader = ap (λ x. (card.answer x apdu).0) s.in_reader;
        },
      )

  -- With a tuner that is in step: one block brings the card's answer to an APDU of at most 115
  -- bytes, and the tuner is in step again, with the card after this APDU.
  pub bcas_transmit-answer :
      (d : DyUd200 (Tuner C)) (c : C) (apdu : List ℕ) (retries : ℕ)
      → Synced crypto card d c
      → length apdu ≤ 115
      → (d' : DyUd200 (Tuner C)) × (bcas_transmit crypto (reader crypto card) d apdu retries
          ≡ (d', ok (card.answer c apdu).1))
        × Synced crypto card d' (card.answer c apdu).0
  unfolding bcas_transmit
  bcas_transmit-answer d c apdu retries s fits =
      let (d', run, s') = attempt-answer d c apdu s fits in
      let rounds : retries + 1 ≡ suc retries = omega arith in
      (
        d',
        rw (rounds, run, transmit_loop)
            (ap
              (λ (t : DyUd200 (Tuner C) × Option (Result (List ℕ))).
                (t.0, ok (card.answer c apdu).1))
              run),
        s',
      )

  -- `bcas_reset` brings the two sides into step, whatever their sequence bytes, with the card reset.
  pub bcas_reset-reset :
      (d : DyUd200 (Tuner C))
      → d.codec ≡ d.usb.codec
      → (d' : DyUd200 (Tuner C)) × (bcas_reset crypto (reader crypto card) d ≡ (d', ok tt))
        × Synced crypto card d' (card.reset d.usb.card)
  unfolding bcas_reset perform padded
  bcas_reset-reset d key =
      let zeros : List ℕ = replicate 124 0 in
      let (k1, run1) = command-perform d cmd_bcas_deactivate key (omega arith) in
      let d1 = after d k1 (d.usb, zeros) in
      let (k2, run2) = command-perform d1 cmd_bcas_activate refl (omega arith) in
      let d2 = after d1 k2 (record d1.usb { card = card.reset d.usb.card; sequence = 0 }, zeros) in
      (
        record d2 { bcas_pcb = 0 },
        ap activated run1 ∙ ap finished run2,
        record { key = refl; sequence = refl; in_reader = refl },
      )
    where
      finished : DyUd200 (Tuner C) × Result (List ℕ) → DyUd200 (Tuner C) × Result (Unit {0})
      finished (d2, raise e) = (d2, raise e)
      finished (d2, ok res) = (record d2 { bcas_pcb = 0 }, ok tt)

      activated : DyUd200 (Tuner C) × Result (List ℕ) → DyUd200 (Tuner C) × Result (Unit {0})
      activated (d1, raise e) = (d1, raise e)
      activated (d1, ok res) =
          finished (command crypto (reader crypto card) d1 cmd_bcas_activate false)
