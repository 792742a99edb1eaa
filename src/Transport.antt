-- ===== src/Transport.antt =====
-- Reception of packets (pyxcp/transport/base.py: BaseTransport).
pub mod Waiting
pub mod Queue
pub mod Blocks
pub mod Patience
mod Tests
use pyxcp.Prelude.{
  ℕ, Bool, true, false, List, [], ◌∷◌, ◌++◌, Option, none, some, take, leb, ◌==◌, if◌then◌else◌,
}

abbrev pub Frame : Type 0
Frame = List ℕ

-- `FrameCategory`, of received packets.
pub data FrameCategory : Type 0 where
  response : FrameCategory
  event : FrameCategory
  serv : FrameCategory
  daq : FrameCategory

-- What the frame acquisition policy is fed with; a response is fed with the time of the clock,
-- which is not modelled, and DAQ frames with the time stamp of the reception or 0.
pub record Fed : Type 0 where
  pub category : FrameCategory
  pub counter : ℕ
  pub daq_timestamp : Option ℕ
  pub payload : Frame

-- The attributes that the reception of packets changes; the counter is none at first (-1).
pub record Transport : Type 0 where
  pub res_queue : List Frame
  pub counter_received : Option ℕ
  pub timer_restart_event : Bool
  pub first_daq_timestamp : Option ℕ
  pub recv_timestamp : ℕ
  pub create_daq_timestamps : Bool
  pub fed : List Fed

-- The arguments of `process_response`; a frame without a first byte is an IndexError, which the
-- listeners never cause: they read the header or drop empty frames.
pub record Packet : Type 0 where
  pub pid : ℕ
  pub rest : Frame
  pub length : ℕ
  pub counter : ℕ
  pub recv_timestamp : ℕ

unfoldable pub trimmed : Packet → Frame
trimmed p = take p.length (p.pid ∷ p.rest)

unfoldable pub feed : FrameCategory → Packet → Option ℕ → Transport → Transport
feed c p t s = record s {
  fed =
      s.fed
      ++ (record { category = c; counter = p.counter; daq_timestamp = t; payload = trimmed p }
          ∷ []);
}

-- The first time stamp is kept.
abbrev pub first_of : Option ℕ → ℕ → Option ℕ
first_of none t = some t
first_of (some old) t = some old

-- The branch of DAQ packets.
unfoldable pub process_daq : Packet → Transport → Transport
process_daq p s =
    feed daq p (some (if s.create_daq_timestamps then p.recv_timestamp else 0)) (record s {
      timer_restart_event = true;
      counter_received = some p.counter;
      first_daq_timestamp = first_of s.first_daq_timestamp p.recv_timestamp;
    })

unfoldable pub process_reply : Packet → Transport → Transport
process_reply p s =
    record (feed response p none (record s { res_queue = s.res_queue ++ (trimmed p ∷ []) })) {
      recv_timestamp = p.recv_timestamp;
    }

-- `process_event_packet` with its chain of handlers (pyxcp/events.py) is a parameter.
module _ (process_event_packet : Frame → Transport → Transport) where
  -- The branches of packets that are not DAQ packets.
  unfoldable pub process_other : Packet → Transport → Transport
  process_other p s =
      if leb 0xFE p.pid
      then process_reply p s
      else (if p.pid == 0xFD
          then feed event p none (process_event_packet (trimmed p) s)
          else feed serv p none s)

  unfoldable pub process_response : Packet → Transport → Transport
  process_response p s =
      if leb 0xFC p.pid
      then process_other p (record s { counter_received = some p.counter })
      else process_daq p s

  -- Packets in the order of their reception.
  unfoldable pub receive : List Packet → Transport → Transport
  receive [] s = s
  receive (p ∷ ps) s = receive ps (process_response p s)
