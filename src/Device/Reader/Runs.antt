-- ===== src/Device/Reader/Runs.antt =====
-- A run of the B-CAS card through the tuner, with a cipher that changes nothing: an initialisation,
-- an ECM, and an ECM that is too long.
use recdyud.Base.{ℕ, ◌+◌, ◌≡◌, refl, List, [], ◌∷◌, replicate, none, arith}
use recdyud.Protocol.{Crypto, init}
use recdyud.Device.{DyUd200}
use recdyud.Bcas
use recdyud.Bcas.{BCasCard}
use recdyud.Device.Reader.{Card, Tuner, Synced}
use recdyud.Device.Reader.Requests.{over, Request, start, ecm, serve_all}
use recdyud.Device.Reader.Through.{through, direct, serve_all-through}

abbrev plain_crypto : Crypto
plain_crypto = record {
  crc32 = λ bytes. 5;
  encrypt = λ key bytes. bytes;
  decrypt = λ key bytes. bytes;
  crc32-lt = λ bytes. omega arith;
  length-encrypt = λ key bytes h. refl;
  decrypt-encrypt = λ key bytes h. refl;
}

-- A card that counts its commands and always answers the same.
abbrev card : Card ℕ
card = record {
  answer = λ n apdu. (n + 1, 0 ∷ 0 ∷ 0 ∷ 0 ∷ 0x21 ∷ 0x00 ∷ replicate 60 7);
  answer_fits = λ n apdu. omega arith;
  reset = λ n. 0;
}

abbrev tuner : DyUd200 (Tuner ℕ)
tuner = record {
  usb = record { codec = init; card = 3; sequence = 0x40; ready = none };
  codec = init;
  bcas_pcb = 0x40;
  ts_errors = 0;
  ts_consecutive_errors = 0;
}

tuner-Synced : Synced plain_crypto card tuner 3
tuner-Synced = record { key = refl; sequence = refl; in_reader = refl }

abbrev idle : BCasCard ℕ
idle = Bcas.init 3

abbrev requests : List Request
requests = start ∷ ecm (1 ∷ 2 ∷ 3 ∷ []) ∷ ecm (replicate 110 0) ∷ []

serve_all-through_example :
    (d' : DyUd200 (Tuner ℕ)) × (serve_all (through plain_crypto card) (over tuner idle) requests ≡ (
      over d' (serve_all (direct plain_crypto card) idle requests).0,
      (serve_all (direct plain_crypto card) idle requests).1,
    ))
    × Synced plain_crypto card d' (serve_all (direct plain_crypto card) idle requests).0.transport
serve_all-through_example = serve_all-through plain_crypto card requests tuner idle tuner-Synced
