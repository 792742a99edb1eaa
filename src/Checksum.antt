-- ===== src/Checksum.antt =====
-- Checksums of memory ranges (pyxcp/checksum.py).
pub mod Crc16Table
pub mod CcittTable
pub mod Crc
pub mod Sums
pub mod Algorithms
mod Tests
