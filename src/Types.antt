-- ===== src/Types.antt =====
-- Enumerations of the protocol (pyxcp/types.py).
pub mod Command
pub mod XcpError
pub mod Event
