-- ===== src/Events/TimeSync/Encoded/Header.antt =====
-- The trigger byte and the format byte of EV_TIME_SYNC packets, written out from the fields they
-- carry (pyxcp/events.py: TriggerInfo.parse, PayloadFormat.parse).
use pyxcp.Prelude.{ℕ, ◌+◌, ◌*◌, ◌/◌, ◌%◌, ◌<◌, ◌≡◌, refl, ap, ◌∙◌, Bool, not, ◌==◌, bit_and, arith}
use pyxcp.Prelude.Masks.{bit_and_three, bit_and_seven, digit, digit-bound, flag-read}
use pyxcp.Events.TimeSync.{
  TriggerInitiator, hw_trigger, independent_time_sync, get_daq_clock_multicast,
  get_daq_clock_via_bridge, sync_state_change, leap_second, ecu_reset_release, reserved_initiator,
  TimeOfTsSampling, protocol_layer, low_jitter_interrupt, physical_transmission, physical_reception,
  ClockFormat, not_present, dword, dlong, reserved_format, initiator_of, sampling_of, format_of,
  trigger_info_of, payload_format_of,
}

-- The numbers that the protocol gives to the members.
abbrev pub initiator_number : TriggerInitiator → ℕ
initiator_number hw_trigger = 0
initiator_number independent_time_sync = 1
initiator_number get_daq_clock_multicast = 2
initiator_number get_daq_clock_via_bridge = 3
initiator_number sync_state_change = 4
initiator_number leap_second = 5
initiator_number ecu_reset_release = 6
initiator_number reserved_initiator = 7

abbrev pub sampling_number : TimeOfTsSampling → ℕ
sampling_number protocol_layer = 0
sampling_number low_jitter_interrupt = 1
sampling_number physical_transmission = 2
sampling_number physical_reception = 3

abbrev pub format_number : ClockFormat → ℕ
format_number not_present = 0
format_number dword = 1
format_number dlong = 2
format_number reserved_format = 3

-- The initiator in the bits 0 to 2 and the time of sampling in the bits 3 and 4; `high` stands in
-- the bits above.
abbrev pub trigger_byte : TriggerInitiator → TimeOfTsSampling → ℕ → ℕ
trigger_byte i t high = initiator_number i + 8 * sampling_number t + 32 * high

-- Two bits for each of the clocks, of the slave, the grandmaster and the ECU, and bit 6 for the
-- cluster.
abbrev pub format_byte : ClockFormat → ClockFormat → ClockFormat → Bool → ℕ → ℕ
format_byte slave grandmaster ecu cluster high =
    format_number slave
    + 4 * format_number grandmaster
    + 16 * format_number ecu
    + 64 * digit cluster
    + 128 * high

initiator-bound : (i : TriggerInitiator) → initiator_number i < 8
initiator-bound hw_trigger = omega arith
initiator-bound independent_time_sync = omega arith
initiator-bound get_daq_clock_multicast = omega arith
initiator-bound get_daq_clock_via_bridge = omega arith
initiator-bound sync_state_change = omega arith
initiator-bound leap_second = omega arith
initiator-bound ecu_reset_release = omega arith
initiator-bound reserved_initiator = omega arith

sampling-bound : (t : TimeOfTsSampling) → sampling_number t < 4
sampling-bound protocol_layer = omega arith
sampling-bound low_jitter_interrupt = omega arith
sampling-bound physical_transmission = omega arith
sampling-bound physical_reception = omega arith

format-bound : (f : ClockFormat) → format_number f < 4
format-bound not_present = omega arith
format-bound dword = omega arith
format-bound dlong = omega arith
format-bound reserved_format = omega arith

initiator_of-number : (i : TriggerInitiator) → initiator_of (initiator_number i) ≡ i
unfolding initiator_of
initiator_of-number hw_trigger = refl
initiator_of-number independent_time_sync = refl
initiator_of-number get_daq_clock_multicast = refl
initiator_of-number get_daq_clock_via_bridge = refl
initiator_of-number sync_state_change = refl
initiator_of-number leap_second = refl
initiator_of-number ecu_reset_release = refl
initiator_of-number reserved_initiator = refl

sampling_of-number : (t : TimeOfTsSampling) → sampling_of (sampling_number t) ≡ t
unfolding sampling_of
sampling_of-number protocol_layer = refl
sampling_of-number low_jitter_interrupt = refl
sampling_of-number physical_transmission = refl
sampling_of-number physical_reception = refl

format_of-number : (f : ClockFormat) → format_of (format_number f) ≡ f
unfolding format_of
format_of-number not_present = refl
format_of-number dword = refl
format_of-number dlong = refl
format_of-number reserved_format = refl

pub trigger_info_of-byte :
    (i : TriggerInitiator) (t : TimeOfTsSampling) (high : ℕ)
    → trigger_info_of (trigger_byte i t high)
      ≡ record { initiator = i; time_of_sampling = t; raw = trigger_byte i t high }
unfolding trigger_info_of
trigger_info_of-byte i t high =
    let v = trigger_byte i t high in
    let p = initiator-bound i in
    let q = sampling-bound t in
    let a : bit_and v 0x07 ≡ initiator_number i = bit_and_seven v ∙ omega arith in
    let b : bit_and (v / 8) 0x03 ≡ sampling_number t = bit_and_three (v / 8) ∙ omega arith in
    let c : initiator_of (bit_and v 0x07) ≡ i = ap initiator_of a ∙ initiator_of-number i in
    let d : sampling_of (bit_and (v / 8) 0x03) ≡ t = ap sampling_of b ∙ sampling_of-number t in
    rw (c, d) refl

pub payload_format_of-byte :
    (slave grandmaster ecu : ClockFormat) (cluster : Bool) (high : ℕ)
    → payload_format_of (format_byte slave grandmaster ecu cluster high) ≡ record {
      xcp_slave_fmt = slave;
      grandmaster_fmt = grandmaster;
      ecu_fmt = ecu;
      cluster_identifier = cluster;
      raw = format_byte slave grandmaster ecu cluster high;
    }
unfolding payload_format_of
payload_format_of-byte slave grandmaster ecu cluster high =
    let v = format_byte slave grandmaster ecu cluster high in
    let p = format-bound slave in
    let q = format-bound grandmaster in
    let r = format-bound ecu in
    let s = digit-bound cluster in
    let a : bit_and v 0x03 ≡ format_number slave = bit_and_three v ∙ omega arith in
    let b : bit_and (v / 4) 0x03 ≡ format_number grandmaster =
      bit_and_three (v / 4) ∙ omega arith in
    let c : bit_and (v / 16) 0x03 ≡ format_number ecu = bit_and_three (v / 16) ∙ omega arith in
    let d : not (bit_and v 0x40 == 0) ≡ cluster =
      flag-read 6 cluster high (v % 64) v (omega arith) (omega arith) (omega arith) in
    let e : format_of (bit_and v 0x03) ≡ slave = ap format_of a ∙ format_of-number slave in
    let f : format_of (bit_and (v / 4) 0x03) ≡ grandmaster =
      ap format_of b ∙ format_of-number grandmaster in
    let g : format_of (bit_and (v / 16) 0x03) ≡ ecu = ap format_of c ∙ format_of-number ecu in
    rw (e, f, g, d) refl
