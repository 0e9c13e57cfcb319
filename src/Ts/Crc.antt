-- ===== src/Ts/Crc.antt =====
-- `_CRC_TABLE` and `crc32_mpeg2` of src/recdyud/ts.py. `x & 0xFFFFFFFF` is `x % 2 ^ 32`.
pub mod Bitwise
pub mod Detect
mod Runs
use recdyud.Base.{ℕ, zero, suc, ◌*◌, ◌/◌, ◌%◌, ◌^◌, bit_xor, List, [], ◌∷◌, has_bits, if◌then◌else◌}

abbrev pub polynomial : ℕ
polynomial = 0x04c11db7

-- One of the eight rounds that make a table entry; the number is not cut to 32 bits here.
unfoldable pub table_round : ℕ → ℕ
table_round c = if has_bits c 31 1 then bit_xor (c * 2) polynomial else c * 2

unfoldable pub table_rounds : ℕ → ℕ → ℕ
unfolding table_round
table_rounds zero c = c
table_rounds (suc n) c = table_rounds n (table_round c)

-- `_CRC_TABLE[i]`, for an index below 256.
unfoldable pub crc_table : ℕ → ℕ
unfolding table_rounds
crc_table i = table_rounds 8 (i * 2 ^ 24) % 2 ^ 32

unfoldable pub crc_step : ℕ → ℕ → ℕ
crc_step crc b = bit_xor (crc * 2 ^ 8 % 2 ^ 32) (crc_table (bit_xor (crc / 2 ^ 24) b % 2 ^ 8))

unfoldable pub crc_loop : ℕ → List ℕ → ℕ
crc_loop crc [] = crc
crc_loop crc (b ∷ bs) = crc_loop (crc_step crc b) bs

unfoldable pub crc32_mpeg2 : List ℕ → ℕ
unfolding crc_loop
crc32_mpeg2 bytes = crc_loop 0xffff_ffff bytes
