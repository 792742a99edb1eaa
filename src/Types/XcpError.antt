-- ===== src/Types/XcpError.antt =====
-- The error codes of negative responses (pyxcp/types.py: XcpError).
use Prim.Native.Nat.{ℕ, ◌+◌}
use pyxcp.Prelude.{Bool, ◌==◌}

-- `XcpError.parse` yields a named member, or for a byte that has no name the bare integer.
pub data XcpError : Type 0 where
  err_cmd_synch err_cmd_busy err_daq_active err_pgm_active err_cmd_unknown err_cmd_syntax
        err_out_of_range err_write_protected err_access_denied err_access_locked err_page_not_valid
        err_mode_not_valid err_segment_not_valid err_sequence err_daq_config err_memory_overflow
        err_generic err_verify err_resource_temporary_not_accessible err_timeout :
      XcpError
  unnamed : ℕ → XcpError

-- The key under which an error is found in a dictionary. It is the name in the source: a number
-- stands for it, the code for a name and one past the bytes for a bare integer.
pub key : XcpError → ℕ
key err_cmd_synch = 0x00
key err_cmd_busy = 0x10
key err_daq_active = 0x11
key err_pgm_active = 0x12
key err_cmd_unknown = 0x20
key err_cmd_syntax = 0x21
key err_out_of_range = 0x22
key err_write_protected = 0x23
key err_access_denied = 0x24
key err_access_locked = 0x25
key err_page_not_valid = 0x26
key err_mode_not_valid = 0x27
key err_segment_not_valid = 0x28
key err_sequence = 0x29
key err_daq_config = 0x2a
key err_memory_overflow = 0x30
key err_generic = 0x31
key err_verify = 0x32
key err_resource_temporary_not_accessible = 0x33
key err_timeout = 0xff
key (unnamed n) = 256 + n

-- `==` of two error codes.
unfoldable pub same : XcpError → XcpError → Bool
unfolding key
same a b = key a == key b
