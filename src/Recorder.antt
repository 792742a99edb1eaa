-- ===== src/Recorder.antt =====
-- The recorder of raw traffic (pyxcp/recorder/reco.py). lz4.block is a parameter, a time stamp is
-- a double, by its 64 bits, and a file is a list of bytes.
pub mod Writer
pub mod Reader
pub mod Overwrite
pub mod Content
pub mod Batches
pub mod Filling
pub mod Adding
pub mod Closing
pub mod Saving
pub mod Reading
pub mod Recording
pub mod Overflow
mod Tests
