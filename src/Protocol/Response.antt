-- ===== src/Protocol/Response.antt =====
-- `CommandCodec.decode` of src/recdyud/protocol.py on what the tuner sends.
use recdyud.Base.{
  ℕ, ◌≡◌, ap, sym, ◌∙◌, true, false, List, ◌++◌, length, take, slice, ltb, ◌==◌, ==_iff,
  if◌then◌else◌, int_from_bytes, int_from_bytes-to_bytes4, to_bytes4, Bool-cases, inl, inr, arith,
  length-append, take-append, drop-append,
}
use recdyud.Protocol.{Crypto, ok, raise, crc_mismatch, default_key, decode}

module _ (crypto : Crypto) where
  open crypto use {crc32, encrypt, decrypt, crc32-lt, length-encrypt, decrypt-encrypt}

  opened :
      (plain extra : List ℕ)
      → length plain ≡ 128
      → decrypt default_key (take 128 (encrypt default_key plain ++ extra)) ≡ plain
  opened plain extra sized =
      ap (decrypt default_key) (
        take-append 128 (encrypt default_key plain) extra
          (length-encrypt default_key plain (omega arith) ∙ sized))
      ∙ decrypt-encrypt default_key plain (omega arith)

  -- A response that is 128 bytes under the fixed key, and anything behind it in the transfer, is
  -- decrypted to these bytes if their last four are the CRC of the others, and is a CRC mismatch if
  -- not.
  pub decode_encrypted :
      (plain extra : List ℕ)
      → length plain ≡ 128
      → decode crypto (encrypt default_key plain ++ extra) ≡ (
          if crc32 (take 124 plain) == int_from_bytes (slice plain 124 128)
          then ok plain
          else raise crc_mismatch)
  unfolding decode
  decode_encrypted plain extra sized =
      rw (enough, opened plain extra sized, decode)
        (elim (Bool-cases (crc32 (take 124 plain) == int_from_bytes (slice plain 124 128))) [
          | inl e ↦ rw e
          | inr e ↦ rw e
        ])
    where
      enough : ltb (length (encrypt default_key plain ++ extra)) 128 ≡ false
      enough = ground (
        arith,
        length-append (encrypt default_key plain) extra,
        length-encrypt default_key plain (omega arith),
      )

  -- So 124 bytes with their CRC behind them come back whole.
  pub decode_response :
      (plain extra : List ℕ)
      → length plain ≡ 124
      → decode crypto (encrypt default_key (plain ++ to_bytes4 (crc32 plain)) ++ extra)
        ≡ ok (plain ++ to_bytes4 (crc32 plain))
  decode_response plain extra sized =
      (decode_encrypted (plain ++ to_bytes4 (crc32 plain)) extra
        (omega (arith, length-append plain (to_bytes4 (crc32 plain)))))
      ∙ rw passes
    where
      passes :
          (crc32 (take 124 (plain ++ to_bytes4 (crc32 plain)))
            == int_from_bytes (slice (plain ++ to_bytes4 (crc32 plain)) 124 128))
          ≡ true
      passes = (==_iff _ _).1 (
          rw
            (
              take-append 124 plain (to_bytes4 (crc32 plain)) sized,
              drop-append 124 plain (to_bytes4 (crc32 plain)) sized,
            )
            (sym (int_from_bytes-to_bytes4 (crc32 plain) (crc32-lt plain))))
