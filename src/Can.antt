-- ===== src/Can.antt =====
-- XCP on CAN: identifiers, filters and padding (pyxcp/transport/can.py).
pub mod Identifier
pub mod Filter
pub mod Padding
mod Tests
