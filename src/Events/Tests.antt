-- ===== src/Events/Tests.antt =====
-- Event packets.
use pyxcp.Prelude.{
  ◌<◌, ◌≡◌, ◌↔◌, ◌++◌, ◌||◌, refl, true, false, some, none, List, [], ◌∷◌, length, arith,
}
use pyxcp.Prelude.Bytes.{little, big, number_of, digits_of, pack, from_bytes, unpack}
use pyxcp.Transport.{Frame, Transport, Packet, trimmed, receive}
use pyxcp.Transport.Queue.{responses}
use pyxcp.Events.TimeSync.{
  get_daq_clock_multicast, physical_reception, dlong, not_present, initiator_of, sampling_of,
  format_of, trigger_info_of, payload_format_of, read_timestamp, read_cluster, parse_extended,
  parse_legacy, parse_format, parse_header, parse,
}
use pyxcp.Events.TimeSync.Encoded.{Contents, encoded, event, parse-encoded}
use pyxcp.Events.TimeSync.Lengths.{needed, parse_extended-none}
use pyxcp.Events.Chain.{intel, Session, process, default_event_chain}
use pyxcp.Events.Chain.Effects.{effect, process-effect}
use pyxcp.Events.Chain.Reception.{on_event, any_restarts, receive-on_event}

time_sync : Unit {0}
unfolding number_of digits_of pack from_bytes unpack initiator_of sampling_of format_of
    trigger_info_of payload_format_of read_timestamp read_cluster parse_extended parse_legacy
    parse_format parse_header parse
time_sync = tt

-- A clock of 8 bytes, the cluster with its counter, and the state of the synchronisation.
abbrev packet : Frame
packet = 0xFD ∷ 0x08 ∷ 0x1A ∷ 0x42 ∷ 1 ∷ 2 ∷ 3 ∷ 4 ∷ 0 ∷ 0 ∷ 0 ∷ 0 ∷ 5 ∷ 6 ∷ 7 ∷ 8 ∷ []

abbrev contents : Contents
contents = record {
  initiator = get_daq_clock_multicast;
  time_of_sampling = physical_reception;
  xcp_slave_fmt = dlong;
  grandmaster_fmt = not_present;
  ecu_fmt = not_present;
  cluster_identifier = true;
  xcp_slave = 0x04030201;
  grandmaster = 0;
  ecu = 0;
  cluster_id = 0x0605;
  counter = 7;
  sync_state = some 8;
}

encoded-packet : encoded little contents 0 0 ≡ packet
unfolding time_sync
encoded-packet = refl

parse-short : parse little 255 (0xFD ∷ 0x08 ∷ 0x1A ∷ 0x42 ∷ 1 ∷ 2 ∷ 3 ∷ 4 ∷ []) ≡ none
unfolding time_sync
parse-short = refl

parse-encoded_example : parse little 255 packet ≡ some (event contents 0 0)
unfolding time_sync
parse-encoded_example =
    parse-encoded little contents 0 0 255 (λ e. omega (arith, e)) (λ e. omega (arith, e))
      (omega arith) (omega arith) tt tt (omega arith)

parse_extended-none_example :
    (parse_extended little packet (trigger_info_of 0x1A) (payload_format_of 0x42) ≡ none)
    ↔ (length packet < needed (payload_format_of 0x42))
parse_extended-none_example =
    parse_extended-none little packet (trigger_info_of 0x1A) (payload_format_of 0x42) (omega arith)

abbrev idle : Transport
idle = record {
  res_queue = [];
  counter_received = none;
  timer_restart_event = false;
  first_daq_timestamp = none;
  recv_timestamp = 0;
  create_daq_timestamps = true;
  fed = [];
}

abbrev session : Session
session = record {
  options = record {
    slave_properties = some (record { max_cto = some 64; byte_order = some intel });
    transport_max_cto = 255;
    transport_byte_order = big;
  };
  transport = idle;
  last_sync_event = none;
}

process-effect_example :
    process default_event_chain 0x08 packet session ≡ (true, effect 0x08 packet session)
process-effect_example = process-effect 0x08 packet session

abbrev received : Frame → Packet
received rest = record { pid = 0xFD; rest = rest; length = 2; counter = 1; recv_timestamp = 5 }

abbrev arrived : List Packet
arrived =
    received (0x05 ∷ 0 ∷ [])
    ∷ record { pid = 0xFF; rest = 1 ∷ 2 ∷ 3 ∷ []; length = 3; counter = 2; recv_timestamp = 6 }
    ∷ []

restarted : any_restarts arrived ≡ true
unfolding trimmed
restarted = refl

receive-on_event_example :
    ((receive (on_event session) arrived idle).res_queue ≡ idle.res_queue ++ responses arrived)
    × ((receive (on_event session) arrived idle).timer_restart_event
        ≡ idle.timer_restart_event || any_restarts arrived)
receive-on_event_example = receive-on_event session arrived idle
