-- ===== src/Protocol.antt =====
-- src/recdyud/protocol.py: framing and encryption of the tuner's commands. AES in ECB mode and
-- `zlib.crc32` are a record of functions with the behaviour that their documentation states.
pub mod Session
pub mod Response
pub mod Block
mod Runs
use recdyud.Base.{
  ℕ, zero, suc, ◌+◌, ◌-◌, ◌%◌, ◌^◌, ◌<◌, ◌≡◌, bit_xor, Bool, true, false, not, Option, none, some,
  List, [], ◌∷◌, ◌++◌, length, get_or, take, drop, slice, replicate, leb, ltb, ◌==◌, if◌then◌else◌,
  has_bits, int_from_bytes, to_bytes2, to_bytes4,
}

abbrev pub command_size : ℕ
command_size = 128

abbrev pub frame_size : ℕ
frame_size = command_size + 4

abbrev pub response_size : ℕ
response_size = 128

-- The cipher, as whole ECB blocks under a key, and the CRC of the standard library.
pub record Crypto : Type 0 where
  pub crc32 : List ℕ → ℕ
  pub encrypt : List ℕ → List ℕ → List ℕ
  pub decrypt : List ℕ → List ℕ → List ℕ
  pub crc32-lt : (bytes : List ℕ) → crc32 bytes < 2 ^ 32
  pub length-encrypt :
      (key bytes : List ℕ) → length bytes % 16 ≡ 0 → length (encrypt key bytes) ≡ length bytes
  pub decrypt-encrypt :
      (key bytes : List ℕ) → length bytes % 16 ≡ 0 → decrypt key (encrypt key bytes) ≡ bytes

-- `DEFAULT_KEY`: 16 bytes and 16 zero bytes.
abbrev pub default_key : List ℕ
default_key =
    0x75
    ∷ 0x93
    ∷ 0xee
    ∷ 0x38
    ∷ 0x0d
    ∷ 0x99
    ∷ 0x44
    ∷ 0x95
    ∷ 0x9f
    ∷ 0xc7
    ∷ 0x67
    ∷ 0x2c
    ∷ 0x59
    ∷ 0xeb
    ∷ 0x1f
    ∷ 0x69
    ∷ replicate 16 0

-- The object keeps two ciphers; a cipher is its key, and that of `_default` never changes.
pub record CommandCodec : Type 0 where
  pub command_key : List ℕ

abbrev pub init : CommandCodec
init = record { command_key = take 16 default_key }

pub data Error : Type 0 where
  value_error short_response crc_mismatch : Error

pub data Result {ℓ} (A : Type ℓ) : Type ℓ where
  ok : A → Result A
  raise : Error → Result A

-- The command in the first 128 bytes of the frame.
unfoldable pub padded : List ℕ → List ℕ
padded command = command ++ replicate (command_size - length command) 0

module _ (crypto : Crypto) where
  open crypto use {crc32, encrypt, decrypt}

  -- The frame before its encryption.
  unfoldable pub plain_frame : List ℕ → List ℕ
  unfolding padded
  plain_frame command = padded command ++ to_bytes4 (crc32 (padded command))

  unfoldable pub encode : CommandCodec → List ℕ → Result (CommandCodec × List ℕ)
  encode c command =
      if ltb command_size (length command)
      then raise value_error
      else (let frame = plain_frame command in
          let short = has_bits (get_or frame 0 0) 4 1 in
          let key = if short then c.command_key else default_key in
          let c' : CommandCodec = if short then c else record { command_key = slice frame 16 32 } in
          ok (c', slice frame 0 2 ++ (encrypt key (slice frame 2 130) ++ drop 130 frame)))

  unfoldable pub decode : List ℕ → Result (List ℕ)
  decode response =
      if ltb (length response) response_size
      then raise short_response
      else (let plain = decrypt default_key (take response_size response) in
          if not (crc32 (take 124 plain) == int_from_bytes (slice plain 124 128))
          then raise crc_mismatch
          else ok plain)

-- The loop over the block's bytes.
unfoldable pub xor_bytes : ℕ → List ℕ → ℕ
xor_bytes lrc [] = lrc
xor_bytes lrc (b ∷ bs) = xor_bytes (bit_xor lrc b) bs

unfoldable pub t1_block : List ℕ → ℕ → Result (List ℕ)
unfolding xor_bytes
t1_block apdu pcb =
    if ltb 115 (length apdu)
    then raise value_error
    else (let n = length apdu in
        let block = 0x00 ∷ pcb ∷ n ∷ apdu in
        ok (
          (0x1f ∷ 0xf0 ∷ 0xf0 ∷ (n + 9) ∷ 0x02 ∷ 0x00 ∷ 0x31 ∷ [])
          ++ (to_bytes2 (n + 4) ++ (block ++ (xor_bytes 0 block ∷ [])))))
