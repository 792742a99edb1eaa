-- ===== src/Events.antt =====
-- Events of the slave (pyxcp/events.py).
pub mod TimeSync
pub mod Chain
mod Tests
