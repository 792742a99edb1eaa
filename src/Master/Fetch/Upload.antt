-- ===== src/Master/Fetch/Upload.antt =====
-- One upload (pyxcp/master/master.py: Master.upload), by the transport's queue of responses.
-- The answer of the slave, as the packets that it sends for so many elements at an address, is a
-- parameter; they arrive while the call waits.
pub mod Answers
use pyxcp.Prelude.{
  ℕ, ◌+◌, ◌-◌, ◌*◌, Bool, true, false, List, [], ◌∷◌, ◌++◌, length, take, drop, leb, ltb, ◌==◌,
  if◌then◌else◌,
}
use pyxcp.Transport.{Frame}
use pyxcp.Transport.Waiting.{drain}
use pyxcp.Master.Fetch.{Uploaded, uploaded, failed, waiting_on}

-- The transfer address and the queue of responses.
pub record Line : Type 0 where
  pub address : ℕ
  pub unread : List Frame

-- `Response.parse(xcpPDU).type == "ERR"`; an empty packet cannot be parsed, which raises too.
unfoldable pub raises : Frame → Bool
raises [] = true
raises (pid ∷ rest) = pid == 0xFE

-- The response that `request` takes from the queue; without one, it times out.
unfoldable pub take_response : List Frame → Line → Uploaded Line
take_response [] s = failed s
take_response (x ∷ xs) s =
    if raises x
    then failed (record s { unread = xs })
    else uploaded (drop 1 x) (record s { unread = xs })

-- The loop on CAN: packets are joined, without their first bytes, while bytes are missing, and
-- none beyond them.
unfoldable pub collect : ℕ → Frame → List Frame → Frame × List Frame
collect byte_count response [] = (response, [])
collect byte_count response (x ∷ xs) =
    let rest = collect byte_count (response ++ take (byte_count - length response) (drop 1 x)) xs in
    if leb byte_count (length response) then (response, x ∷ xs) else rest

-- `block_receive` and what was there before; too few bytes are a time-out.
unfoldable pub receive_block : ℕ → Frame → Line → Uploaded Line
receive_block byte_count response s =
    let (block, queue) = drain (byte_count - length response) [] s.unread in
    if leb (byte_count - length response) (length block)
    then uploaded (response ++ block) (record s { unread = queue })
    else failed (record s { unread = queue })

unfoldable pub receive_rest : ℕ → Frame → Line → Uploaded Line
receive_rest byte_count response s =
    let (bytes, queue) = collect byte_count response s.unread in
    if leb byte_count (length bytes)
    then uploaded bytes (record s { unread = queue })
    else waiting_on (record s { unread = queue })

abbrev pub go_on_with : (Frame → Line → Uploaded Line) → Uploaded Line → Uploaded Line
go_on_with next (uploaded response s) = next response s
go_on_with next (failed s) = failed s
go_on_with next (waiting_on s) = waiting_on s

-- What follows the response.
unfoldable pub finish_upload : Bool → ℕ → ℕ → Frame → Line → Uploaded Line
unfolding receive_block receive_rest
finish_upload is_can max_cto byte_count response s =
    if ltb (max_cto - 1) byte_count
    then receive_block byte_count response s
    else (if is_can then receive_rest byte_count response s else uploaded response s)

module _ (is_can : Bool) (max_cto bytes_per_element : ℕ) (answer : ℕ → ℕ → List Frame) where
  unfoldable pub upload : ℕ → Line → Uploaded Line
  unfolding finish_upload take_response
  upload n s =
      go_on_with (finish_upload is_can max_cto (n * bytes_per_element))
        (take_response (s.unread ++ answer s.address n) (record s { address = s.address + n }))
