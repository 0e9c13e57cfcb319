-- ===== src/Ts.antt =====
-- src/recdyud/ts.py: transport stream packets, error statistics and PSI/SI tables.
pub mod Aligner
pub mod Analyzer
pub mod Crc
pub mod Psi
pub mod Section
pub mod Si
use recdyud.Base.{ℕ}

abbrev pub packet_size : ℕ
packet_size = 188

abbrev pub sync_byte : ℕ
sync_byte = 0x47

abbrev pub null_pid : ℕ
null_pid = 0x1fff

-- Consecutive sync bytes that (re)acquire alignment.
abbrev pub sync_confirm : ℕ
sync_confirm = 4
