-- ===== src/ErrorHandler.antt =====
-- Error handling of the master (pyxcp/master/errorhandler.py).
pub mod Results
pub mod Repeater
pub mod Arguments
pub mod Recovery
pub mod Executor
pub mod Facts
mod Tests
