-- ===== src/Protocol/Runs.antt =====
-- Runs of src/recdyud/protocol.py with a cipher that changes nothing and a CRC that is always 5.
use recdyud.Base.{ℕ, ◌≤◌, ◌<◌, ◌≡◌, refl, some, List, [], ◌∷◌, length, replicate, arith, ◌⊎◌}
use recdyud.Protocol.{Crypto, CommandCodec, init, ok, raise, value_error, padded, encode}
use recdyud.Protocol.Session.{receive, receive-encode}

abbrev plain_crypto : Crypto
plain_crypto = record {
  crc32 = λ bytes. 5;
  encrypt = λ key bytes. bytes;
  decrypt = λ key bytes. bytes;
  crc32-lt = λ bytes. omega arith;
  length-encrypt = λ key bytes h. refl;
  decrypt-encrypt = λ key bytes h. refl;
}

-- A command that brings a new key, and one under it.
abbrev new_key : List ℕ
new_key = 0x0f ∷ 0xf0 ∷ 0xe0 ∷ 0x20 ∷ replicate 32 9

abbrev short : List ℕ
short = 0x1f ∷ 0xf0 ∷ 0xb1 ∷ 0x04 ∷ 0x26 ∷ 0x0a ∷ 0 ∷ 0 ∷ []

receive-encode_example :
    ((36 ≤ 128)
      × (c' : CommandCodec) × (wire : List ℕ) × (encode plain_crypto init new_key ≡ ok (c', wire))
      × (length wire ≡ 132)
      × (receive plain_crypto init wire ≡ some (c', padded new_key)))
    ⊎ ((128 < 36) × (encode plain_crypto init new_key ≡ raise value_error))
receive-encode_example = receive-encode plain_crypto init new_key
