-- ===== src/Master/Download/Slave.antt =====
-- What the protocol asks of a transfer: a slave that writes the data of DOWNLOAD and PROGRAM
-- blocks, and the responses that reach the master's queue.
pub mod Steps
pub mod Packets
pub mod Blocks
pub mod Sizes
pub mod Transfers
pub mod Reopened
use pyxcp.Prelude.{
  ℕ, zero, suc, ◌+◌, ◌-◌, Bool, true, false, ◌&&◌, Option, none, some, List, [], ◌∷◌, ◌++◌, length,
  leb, ltb, ◌==◌, if◌then◌else◌,
}
use pyxcp.Master.Download.{
  Service, start_download, continue_download, start_program, continue_program, Request, Call,
  set_mta, send,
}

-- The transfer address that was set last, the bytes written from there on, the bytes that an
-- open block still lacks, and the responses in the master's queue that nobody has read.
pub record State : Type 0 where
  pub address : ℕ
  pub address_ext : ℕ
  pub written : List ℕ
  pub missing : ℕ
  pub unread : ℕ

abbrev pub opens : Service → Bool
opens start_download = true
opens start_program = true
opens continue_download = false
opens continue_program = false

-- The bytes that the block lacks before the packet: a new block when none is open, or the open
-- block, of which the packet tells the right rest.
unfoldable pub expected : Bool → ℕ → ℕ → Option ℕ
expected true missing size = if missing == 0 then some size else none
expected false missing size = if (missing == size) && ltb 0 missing then some size else none

-- The responses left after the exchange: the slave answers when the block is complete, before the
-- next call. MAX_CTO, MAX_BS and the byte for the size are asked for in Sizes. A request
-- takes one response and fails without any; a block request takes one that is there beforehand.
unfoldable pub exchange : Bool → Bool → ℕ → Option ℕ
exchange true true unread = some unread
exchange true false zero = none
exchange true false (suc n) = some n
exchange false true unread = some (unread - 1 + 1)
exchange false false unread = some (unread - 1)

unfoldable pub answered : Request → State → ℕ → Option ℕ → Option State
answered r s size none = none
answered r s size (some n) =
    if leb (length r.payload) size
    then some (record s {
      written = s.written ++ r.payload;
      missing = size - length r.payload;
      unread = n;
    })
    else none

unfoldable pub accept_packet : Request → State → Option ℕ → Option State
accept_packet r s none = none
accept_packet r s (some size) =
    answered r s size (exchange r.awaits (size - length r.payload == 0) s.unread)

-- One call; none is a sequence error or a request that gets no response.
unfoldable pub step : Call → State → Option State
step (set_mta address ext) s =
    some (record s { address = address; address_ext = ext; written = []; missing = 0 })
step (send r) s = accept_packet r s (expected (opens r.service) s.missing r.size)
