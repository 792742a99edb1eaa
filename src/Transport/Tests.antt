-- ===== src/Transport/Tests.antt =====
-- The transport on concrete packets.
use pyxcp.Prelude.{◌≤◌, ◌≡◌, refl, true, false, [], ◌∷◌, ◌++◌, none, All, if◌then◌else◌, arith}
use pyxcp.Transport.{
  Frame, Transport, Packet, trimmed, feed, process_daq, process_reply, process_other,
  process_response, receive,
}
use pyxcp.Transport.Waiting.{
  Wake, got, timed_out, waiting, check_time, poll_empty, poll_queue, drain, after_poll, get,
  block_receive,
}
use pyxcp.Transport.Queue.{responses, receive-responses}
use pyxcp.Transport.Blocks.{payloads, Received, block_receive-Received}
use pyxcp.Transport.Patience.{Busy, any_late, get-Busy, get-Quiet}

-- A chain of event handlers that restarts the time, as for EV_CMD_PENDING.
abbrev on_event : Frame → Transport → Transport
on_event x s = record s { timer_restart_event = true }

abbrev idle : Transport
idle = record {
  res_queue = [];
  counter_received = none;
  timer_restart_event = false;
  first_daq_timestamp = none;
  recv_timestamp = 0;
  create_daq_timestamps = true;
  fed = [];
}

abbrev reply : Packet
reply = record {
  pid = 0xFF;
  rest = 1 ∷ 2 ∷ 0xAA ∷ [];
  length = 3;
  counter = 7;
  recv_timestamp = 50;
}

abbrev odt : Packet
odt = record { pid = 0; rest = 9 ∷ []; length = 2; counter = 8; recv_timestamp = 60 }

abbrev pending : Packet
pending = record { pid = 0xFD; rest = 5 ∷ []; length = 2; counter = 9; recv_timestamp = 70 }

abbrev busy : Wake
busy = record { restarted = 995; now = 1000; arrivals = odt ∷ [] }

abbrev quiet : Wake
quiet = record { restarted = 0; now = 1000; arrivals = [] }

transport : Unit {0}
unfolding trimmed feed process_daq process_reply process_other process_response receive check_time
    poll_empty poll_queue drain after_poll get block_receive payloads
transport = tt

-- The padding of the response is not queued.
receive-packets :
    (receive on_event (odt ∷ reply ∷ pending ∷ []) idle).res_queue ≡ (0xFF ∷ 1 ∷ 2 ∷ []) ∷ []
unfolding transport
receive-packets = refl

-- The identifier is dropped, be it that of a negative response.
abbrev with_error : Transport
with_error = record idle { res_queue = (0xFE ∷ 0x22 ∷ []) ∷ (0xFF ∷ 5 ∷ []) ∷ [] }

block_receive-any :
    block_receive on_event 10 1 [] 0 [] with_error
    ≡ got (0x22 ∷ []) (record with_error { res_queue = (0xFF ∷ 5 ∷ []) ∷ [] })
unfolding transport
block_receive-any = refl

receive-responses_example :
    (receive on_event (odt ∷ reply ∷ pending ∷ []) idle).res_queue
    ≡ idle.res_queue ++ responses (odt ∷ reply ∷ pending ∷ [])
receive-responses_example =
    receive-responses on_event (λ x s. refl) (odt ∷ reply ∷ pending ∷ []) idle

payloads-two : 2 ≤ 2
payloads-two = omega arith

block_receive-Received_example :
    Received 2 with_error (block_receive on_event 10 2 (quiet ∷ []) 0 [] with_error)
unfolding payloads
block_receive-Received_example =
    block_receive-Received on_event 10 2 (quiet ∷ []) 0 with_error payloads-two

abbrev restarted : Transport
restarted = record idle { timer_restart_event = true }

All-Busy : All Busy (busy ∷ busy ∷ [])
All-Busy = ((odt, [], refl, (omega arith, tt)), ((odt, [], refl, (omega arith, tt)), tt))

get-Busy_example : (s' : Transport) × (get on_event 10 (busy ∷ busy ∷ []) 0 restarted ≡ waiting s')
get-Busy_example =
    get-Busy on_event 10 0 (busy ∷ busy ∷ []) restarted All-Busy (omega arith, (omega arith, tt))
      refl refl

get-Quiet_example :
    get on_event 10 (quiet ∷ []) 0 idle
    ≡ (if any_late 10 0 (quiet ∷ []) then timed_out idle else waiting idle)
get-Quiet_example = get-Quiet on_event 10 0 (quiet ∷ []) idle (refl, tt) refl refl
