-- ===== src/Master.antt =====
-- Transfers between master and slave (pyxcp/master/master.py).
pub mod Download
pub mod Fetch
pub mod Unlock
mod Tests
