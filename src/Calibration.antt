-- ===== src/Calibration.antt =====
-- Calibration pages (pyxcp/master/calibration.py). The commands of the master that it calls are a
-- parameter, functions on the state of the slave.
pub mod Layout
pub mod Discovery
pub mod Operations
pub mod Dictionary
pub mod Discovered
pub mod Calls
pub mod Kept
pub mod Permission
mod Tests
