-- ===== src/Optimize.antt =====
-- Optimisation of DAQ lists (pyxcp/daq_stim/optimize).
pub mod BinPacking
pub mod Blocks
mod Tests
