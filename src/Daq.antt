-- ===== src/Daq.antt =====
-- The configuration of a measurement (pyxcp/daq_stim/__init__.py: DaqProcessor).
pub mod Sizes
pub mod Setup
mod Tests
