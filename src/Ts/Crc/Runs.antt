-- ===== src/Ts/Crc/Runs.antt =====
-- Runs of `crc32_mpeg2` of src/recdyud/ts.py.
use recdyud.Base.{ℕ, ◌≡◌, ◌≢◌, refl, List, [], ◌∷◌, All, IsByte, arith}
use recdyud.Ts.Crc.{crc_step, crc_table, crc32_mpeg2}
use recdyud.Ts.Crc.Detect.{crc32_mpeg2-detects}
use recdyud.Ts.Crc.Bitwise.{bitwise_crc, crc32_mpeg2-bitwise}

abbrev digits : List ℕ
digits = 0x31 ∷ 0x32 ∷ 0x33 ∷ 0x34 ∷ 0x35 ∷ 0x36 ∷ 0x37 ∷ 0x38 ∷ 0x39 ∷ []

-- The check value of CRC-32/MPEG-2.
check : crc32_mpeg2 digits ≡ 0x0376e6e7
unfolding crc32_mpeg2 crc_step crc_table
check = refl

digits-IsByte : All IsByte digits
digits-IsByte = (
  omega arith,
  (
    omega arith,
    (
      omega arith,
      (omega arith, (omega arith, (omega arith, (omega arith, (omega arith, (omega arith, tt)))))),
    ),
  ),
)

crc32_mpeg2-detects_example :
    crc32_mpeg2 (0x30 ∷ 0xff ∷ digits) ≢ crc32_mpeg2 (0x30 ∷ 0xfe ∷ digits)
crc32_mpeg2-detects_example =
    crc32_mpeg2-detects (0x30 ∷ []) digits 0xff 0xfe digits-IsByte (omega arith) (omega arith)
      (λ e. absurd (omega arith))

crc32_mpeg2-bitwise_example : crc32_mpeg2 digits ≡ bitwise_crc 0xffff_ffff digits
crc32_mpeg2-bitwise_example = crc32_mpeg2-bitwise digits digits-IsByte
