-- ===== src/Events/TimeSync.antt =====
-- EV_TIME_SYNC packets (pyxcp/events.py: TriggerInfo, PayloadFormat, TimeSyncEvent).
pub mod Encoded
pub mod Lengths
use pyxcp.Prelude.{
  ℕ, zero, suc, ◌+◌, ◌/◌, Bool, true, false, not, ◌||◌, Option, none, some, List, [], ◌∷◌, length,
  take, drop, get_elem?, bit_and, leb, ltb, ◌==◌, if◌then◌else◌,
}
use pyxcp.Prelude.Bytes.{Endian, unpack}

pub data TriggerInitiator : Type 0 where
  hw_trigger : TriggerInitiator
  independent_time_sync : TriggerInitiator
  get_daq_clock_multicast : TriggerInitiator
  get_daq_clock_via_bridge : TriggerInitiator
  sync_state_change : TriggerInitiator
  leap_second : TriggerInitiator
  ecu_reset_release : TriggerInitiator
  reserved_initiator : TriggerInitiator

pub data TimeOfTsSampling : Type 0 where
  protocol_layer : TimeOfTsSampling
  low_jitter_interrupt : TimeOfTsSampling
  physical_transmission : TimeOfTsSampling
  physical_reception : TimeOfTsSampling

pub data ClockFormat : Type 0 where
  not_present : ClockFormat
  dword : ClockFormat
  dlong : ClockFormat
  reserved_format : ClockFormat

-- The constructors of the enumerations; the masks leave no other number.
unfoldable pub initiator_of : ℕ → TriggerInitiator
initiator_of n =
    if n == 0
    then hw_trigger
    else (if n == 1
        then independent_time_sync
        else (if n == 2
            then get_daq_clock_multicast
            else (if n == 3
                then get_daq_clock_via_bridge
                else (if n == 4
                    then sync_state_change
                    else (if n == 5
                        then leap_second
                        else (if n == 6 then ecu_reset_release else reserved_initiator))))))

unfoldable pub sampling_of : ℕ → TimeOfTsSampling
sampling_of n =
    if n == 0
    then protocol_layer
    else (if n == 1
        then low_jitter_interrupt
        else (if n == 2 then physical_transmission else physical_reception))

unfoldable pub format_of : ℕ → ClockFormat
format_of n =
    if n == 0
    then not_present
    else (if n == 1 then dword else (if n == 2 then dlong else reserved_format))

pub record TriggerInfo : Type 0 where
  pub initiator : TriggerInitiator
  pub time_of_sampling : TimeOfTsSampling
  pub raw : ℕ

unfoldable pub trigger_info_of : ℕ → TriggerInfo
trigger_info_of byte_value = record {
  initiator = initiator_of (bit_and byte_value 0x07);
  time_of_sampling = sampling_of (bit_and (byte_value / 8) 0x03);
  raw = byte_value;
}

pub record PayloadFormat : Type 0 where
  pub xcp_slave_fmt : ClockFormat
  pub grandmaster_fmt : ClockFormat
  pub ecu_fmt : ClockFormat
  pub cluster_identifier : Bool
  pub raw : ℕ

unfoldable pub payload_format_of : ℕ → PayloadFormat
payload_format_of byte_value = record {
  xcp_slave_fmt = format_of (bit_and byte_value 0x03);
  grandmaster_fmt = format_of (bit_and (byte_value / 4) 0x03);
  ecu_fmt = format_of (bit_and (byte_value / 16) 0x03);
  cluster_identifier = not (bit_and byte_value 0x40 == 0);
  raw = byte_value;
}

pub record TimeSyncEvent : Type 0 where
  pub is_legacy : Bool
  pub trigger_info : TriggerInfo
  pub payload_fmt : Option PayloadFormat
  pub counter : Option ℕ
  pub xcp_slave_timestamp : Option ℕ
  pub grandmaster_timestamp : Option ℕ
  pub ecu_timestamp : Option ℕ
  pub cluster_id : Option ℕ
  pub sync_state : Option ℕ

-- An exception ends the parser.
abbrev pub and_then {ℓ κ} : {A : Type ℓ} {B : Type κ} → (A → Option B) → Option A → Option B
and_then k none = none
and_then k (some a) = k a

-- `packet[offset : offset + n]`
abbrev pub slice : List ℕ → ℕ → ℕ → List ℕ
slice packet offset n = take n (drop offset packet)

-- What a reader returns, and the offset it leaves.
pub record Read : Type 0 where
  pub value : Option ℕ
  pub offset : ℕ

abbrev pub read_at : ℕ → ℕ → Option Read
read_at offset x = some (record { value = some x; offset = offset })

-- What the parser returns in the extended format.
abbrev pub extended_event :
    TriggerInfo → PayloadFormat → Read → Read → Read → Read × Option ℕ → Option ℕ → TimeSyncEvent
extended_event trigger_info payload_fmt slave grandmaster ecu cluster sync_state = record {
  is_legacy = false;
  trigger_info = trigger_info;
  payload_fmt = some payload_fmt;
  counter = cluster.1;
  xcp_slave_timestamp = slave.value;
  grandmaster_timestamp = grandmaster.value;
  ecu_timestamp = ecu.value;
  cluster_id = cluster.0.value;
  sync_state = sync_state;
}

module _ (order : Endian) (packet : List ℕ) where
  -- `read_timestamp`
  unfoldable pub read_timestamp : ClockFormat → ℕ → Option Read
  read_timestamp not_present offset = some (record { value = none; offset = offset })
  read_timestamp dword offset =
      if ltb (length packet) (offset + 4)
      then none
      else and_then (read_at (offset + 4)) (unpack order 4 (slice packet offset 4))
  read_timestamp dlong offset =
      if ltb (length packet) (offset + 8)
      then none
      else and_then (read_at (offset + 8)) (unpack order 8 (slice packet offset 8))
  read_timestamp reserved_format offset = some (record { value = none; offset = offset })

  -- The cluster and the counter, and the offset behind them.
  unfoldable pub read_cluster : Bool → ℕ → Option (Read × Option ℕ)
  read_cluster true offset =
      if ltb (length packet) (offset + 3)
      then none
      else and_then
          (λ x.
            some (record { value = some x; offset = offset + 3 }, get_elem? packet (offset + 2)))
          (unpack order 2 (slice packet offset 2))
  read_cluster false offset = some (record { value = none; offset = offset }, none)

  -- The extended format.
  unfoldable pub parse_extended : TriggerInfo → PayloadFormat → Option TimeSyncEvent
  parse_extended trigger_info payload_fmt =
      and_then
        (λ slave.
          and_then
            (λ grandmaster.
              and_then
                (λ ecu.
                  and_then
                    (λ cluster. some (
                      extended_event trigger_info payload_fmt slave grandmaster ecu cluster
                        (get_elem? packet cluster.0.offset)))
                    (read_cluster payload_fmt.cluster_identifier ecu.offset))
                (read_timestamp payload_fmt.ecu_fmt grandmaster.offset))
            (read_timestamp payload_fmt.grandmaster_fmt slave.offset))
        (read_timestamp payload_fmt.xcp_slave_fmt 4)

  -- The formats of 8 bytes, with the counter of one of them.
  unfoldable pub parse_legacy : TriggerInfo → Option PayloadFormat → Option ℕ → Option TimeSyncEvent
  parse_legacy trigger_info payload_fmt counter =
      and_then
        (λ timestamp. some (record {
          is_legacy = true;
          trigger_info = trigger_info;
          payload_fmt = payload_fmt;
          counter = counter;
          xcp_slave_timestamp = some timestamp;
          grandmaster_timestamp = none;
          ecu_timestamp = none;
          cluster_id = none;
          sync_state = none;
        }))
        (unpack order 4 (slice packet 4 4))

  -- The choice of the format, with the trigger byte and the byte after it.
  unfoldable pub parse_format : ℕ → ℕ → ℕ → Option TimeSyncEvent
  parse_format max_cto trigger fourth =
      if max_cto == 8
      then parse_legacy (trigger_info_of trigger) none (some fourth)
      else (if fourth == 0
          then parse_legacy (trigger_info_of trigger) (some (payload_format_of fourth)) none
          else parse_extended (trigger_info_of trigger) (payload_format_of fourth))

-- The first four bytes, of a packet that has eight.
unfoldable pub parse_header : Endian → ℕ → List ℕ → Option TimeSyncEvent
parse_header order max_cto (pid ∷ code ∷ trigger ∷ fourth ∷ rest) =
    if not (pid == 0xFD) || not (code == 0x08)
    then none
    else parse_format order (pid ∷ code ∷ trigger ∷ fourth ∷ rest) max_cto trigger fourth
parse_header order max_cto packet = none

-- `TimeSyncEvent.parse`
unfoldable pub parse : Endian → ℕ → List ℕ → Option TimeSyncEvent
parse order max_cto packet =
    if ltb (length packet) 8 then none else parse_header order max_cto packet
