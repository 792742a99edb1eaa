-- ===== src/Events/TimeSync/Encoded.antt =====
-- The extended format of EV_TIME_SYNC packets, written out, and its parser (pyxcp/events.py:
-- TimeSyncEvent.parse).
mod Fields
mod Header
use pyxcp.Prelude.{
  le→not_ltb, ne→not_==, ℕ, ◌+◌, ◌^◌, ◌≤◌, ◌<◌, ◌≡◌, ◌≢◌, refl, sym, ap, ◌∙◌, Bool, true, false,
  Option, none, some, List, [], ◌∷◌, ◌++◌, append_assoc, append-nil, length, length-append, take,
  drop-length-append, take-length-append, get_elem?, ltb, if◌then◌else◌, arith,
}
use pyxcp.Prelude.Bytes.{Endian, pack, unpack, unpack-pack, length-pack}
use pyxcp.Events.TimeSync.{
  TriggerInitiator, TimeOfTsSampling, ClockFormat, not_present, dword, dlong, reserved_format,
  TriggerInfo, PayloadFormat, TimeSyncEvent, trigger_info_of, payload_format_of, slice, Read,
  read_at, read_timestamp, read_cluster, extended_event, parse_extended, parse_format, parse_header,
  parse,
}
use pyxcp.Events.TimeSync.Encoded.Header.{
  trigger_byte, format_byte, trigger_info_of-byte, payload_format_of-byte,
}
use pyxcp.Events.TimeSync.Encoded.Fields.{
  clock_bytes, clock_value, Holds, cluster_bytes, when_present, state_bytes, read_timestamp-clock,
  get_elem?-state, read_cluster-bytes,
}

-- Four readers that succeed make an event.
pub parse_extended-reads :
    (order : Endian) (packet : List ℕ) (t : TriggerInfo) (f : PayloadFormat) (a b c : Read)
    (d : Read × Option ℕ)
    → read_timestamp order packet f.xcp_slave_fmt 4 ≡ some a
    → read_timestamp order packet f.grandmaster_fmt a.offset ≡ some b
    → read_timestamp order packet f.ecu_fmt b.offset ≡ some c
    → read_cluster order packet f.cluster_identifier c.offset ≡ some d
    → parse_extended order packet t f
      ≡ some (extended_event t f a b c d (get_elem? packet d.0.offset))
unfolding parse_extended
parse_extended-reads order packet t f a b c d e1 e2 e3 e4 = rw (e1, e2, e3, e4)

module _ (order : Endian) (trigger fourth : ℕ) (info : TriggerInfo) (format : PayloadFormat)
    (slave grandmaster ecu id counter : ℕ) (state : Option ℕ) where
  abbrev header : List ℕ
  header = 0xFD ∷ 0x08 ∷ trigger ∷ fourth ∷ []

  -- The packet that carries these values in the format.
  abbrev laid_out : List ℕ
  laid_out =
      header
      ++ (clock_bytes order format.xcp_slave_fmt slave
          ++ (clock_bytes order format.grandmaster_fmt grandmaster
              ++ (clock_bytes order format.ecu_fmt ecu
                  ++ (cluster_bytes order format.cluster_identifier id counter
                      ++ state_bytes state))))

  -- The event that the packet stands for.
  abbrev read_out : TimeSyncEvent
  read_out = record {
    is_legacy = false;
    trigger_info = info;
    payload_fmt = some format;
    counter = when_present format.cluster_identifier counter;
    xcp_slave_timestamp = clock_value format.xcp_slave_fmt slave;
    grandmaster_timestamp = clock_value format.grandmaster_fmt grandmaster;
    ecu_timestamp = clock_value format.ecu_fmt ecu;
    cluster_id = when_present format.cluster_identifier id;
    sync_state = state;
  }

  parse_extended-laid_out :
      Holds format.xcp_slave_fmt slave
      → Holds format.grandmaster_fmt grandmaster
      → Holds format.ecu_fmt ecu
      → id < 256 ^ 2
      → parse_extended order laid_out (info) format ≡ some read_out
  unfolding parse_extended
  parse_extended-laid_out a b c d =
      let c1 = clock_bytes order format.xcp_slave_fmt slave in
      let c2 = clock_bytes order format.grandmaster_fmt grandmaster in
      let c3 = clock_bytes order format.ecu_fmt ecu in
      let c4 = cluster_bytes order format.cluster_identifier id counter in
      let c5 = state_bytes state in
      let p1 : laid_out ≡ (header ++ c1) ++ (c2 ++ (c3 ++ (c4 ++ c5))) =
        sym (append_assoc header c1 (c2 ++ (c3 ++ (c4 ++ c5)))) in
      let p2 : laid_out ≡ ((header ++ c1) ++ c2) ++ (c3 ++ (c4 ++ c5)) =
        p1 ∙ sym (append_assoc (header ++ c1) c2 (c3 ++ (c4 ++ c5))) in
      let p3 : laid_out ≡ (((header ++ c1) ++ c2) ++ c3) ++ (c4 ++ c5) =
        p2 ∙ sym (append_assoc ((header ++ c1) ++ c2) c3 (c4 ++ c5)) in
      let p4 : laid_out ≡ ((((header ++ c1) ++ c2) ++ c3) ++ c4) ++ c5 =
        p3 ∙ sym (append_assoc (((header ++ c1) ++ c2) ++ c3) c4 c5) in
      parse_extended-reads order laid_out (info) format
        (record { value = clock_value format.xcp_slave_fmt slave; offset = length (header ++ c1) })
        (record {
          value = clock_value format.grandmaster_fmt grandmaster;
          offset = length ((header ++ c1) ++ c2);
        })
        (record {
          value = clock_value format.ecu_fmt ecu;
          offset = length (((header ++ c1) ++ c2) ++ c3);
        })
        (
          record {
            value = when_present format.cluster_identifier id;
            offset = length ((((header ++ c1) ++ c2) ++ c3) ++ c4);
          },
          when_present format.cluster_identifier counter,
        )
        (read_timestamp-clock order header (c2 ++ (c3 ++ (c4 ++ c5))) format.xcp_slave_fmt slave a)
        (ap (λ p. read_timestamp order p format.grandmaster_fmt (length (header ++ c1))) p1
          ∙ read_timestamp-clock order (header ++ c1) (c3 ++ (c4 ++ c5)) format.grandmaster_fmt
              grandmaster b)
        (ap (λ p. read_timestamp order p format.ecu_fmt (length ((header ++ c1) ++ c2))) p2
          ∙ read_timestamp-clock order ((header ++ c1) ++ c2) (c4 ++ c5) format.ecu_fmt ecu c)
        (ap
            (λ p.
              read_cluster order p format.cluster_identifier
                (length (((header ++ c1) ++ c2) ++ c3)))
            p3
          ∙ read_cluster-bytes order (((header ++ c1) ++ c2) ++ c3) c5 format.cluster_identifier id
              counter d)
      ∙ ap (λ o. some (record read_out { sync_state = o }))
          (ap (λ p. get_elem? p (length ((((header ++ c1) ++ c2) ++ c3) ++ c4))) p4
            ∙ get_elem?-state ((((header ++ c1) ++ c2) ++ c3) ++ c4) state)

  parse-laid_out :
      (max_cto : ℕ)
      → trigger_info_of trigger ≡ info
      → payload_format_of fourth ≡ format
      → max_cto ≢ 8
      → fourth ≢ 0
      → 8 ≤ length laid_out
      → Holds format.xcp_slave_fmt slave
      → Holds format.grandmaster_fmt grandmaster
      → Holds format.ecu_fmt ecu
      → id < 256 ^ 2
      → parse order max_cto laid_out ≡ some read_out
  unfolding parse parse_header parse_format
  parse-laid_out max_cto e f n z l a b c d =
      rw
        (
          le→not_ltb (length laid_out) 8 l,
          if◌then◌else◌,
          ne→not_== max_cto 8 n,
          ne→not_== fourth 0 z,
          e,
          f,
        )
        (parse_extended-laid_out a b c d)

-- What an extended packet carries.
pub record Contents : Type 0 where
  pub initiator : TriggerInitiator
  pub time_of_sampling : TimeOfTsSampling
  pub xcp_slave_fmt : ClockFormat
  pub grandmaster_fmt : ClockFormat
  pub ecu_fmt : ClockFormat
  pub cluster_identifier : Bool
  pub xcp_slave : ℕ
  pub grandmaster : ℕ
  pub ecu : ℕ
  pub cluster_id : ℕ
  pub counter : ℕ
  pub sync_state : Option ℕ

-- Its header bytes, with `x` and `y` in the bits that are not used.
abbrev pub trigger_of : Contents → ℕ → ℕ
trigger_of c x = trigger_byte c.initiator c.time_of_sampling x

abbrev pub fourth_of : Contents → ℕ → ℕ
fourth_of c y = format_byte c.xcp_slave_fmt c.grandmaster_fmt c.ecu_fmt c.cluster_identifier y

abbrev pub encoded : Endian → Contents → ℕ → ℕ → List ℕ
encoded order c x y =
    (0xFD ∷ 0x08 ∷ trigger_of c x ∷ fourth_of c y ∷ [])
    ++ (clock_bytes order c.xcp_slave_fmt c.xcp_slave
        ++ (clock_bytes order c.grandmaster_fmt c.grandmaster
            ++ (clock_bytes order c.ecu_fmt c.ecu
                ++ (cluster_bytes order c.cluster_identifier c.cluster_id c.counter
                    ++ state_bytes c.sync_state))))

-- The event that the packet stands for.
abbrev pub event : Contents → ℕ → ℕ → TimeSyncEvent
event c x y = record {
  is_legacy = false;
  trigger_info = record {
    initiator = c.initiator;
    time_of_sampling = c.time_of_sampling;
    raw = trigger_of c x;
  };
  payload_fmt = some (record {
    xcp_slave_fmt = c.xcp_slave_fmt;
    grandmaster_fmt = c.grandmaster_fmt;
    ecu_fmt = c.ecu_fmt;
    cluster_identifier = c.cluster_identifier;
    raw = fourth_of c y;
  });
  counter = when_present c.cluster_identifier c.counter;
  xcp_slave_timestamp = clock_value c.xcp_slave_fmt c.xcp_slave;
  grandmaster_timestamp = clock_value c.grandmaster_fmt c.grandmaster;
  ecu_timestamp = clock_value c.ecu_fmt c.ecu;
  cluster_id = when_present c.cluster_identifier c.cluster_id;
  sync_state = c.sync_state;
}

-- An extended EV_TIME_SYNC packet that was put together from its contents, the numbers of the members in their
-- bits of the trigger byte and the format byte, with whatever in the bits that are not used, and the
-- values behind in either byte order, is parsed to exactly these contents, provided that the values
-- fit their fields, that the format byte is not 0, that MAX_CTO is not 8 and that the packet has 8
-- bytes.
pub parse-encoded :
    (order : Endian) (c : Contents) (x y max_cto : ℕ)
    → max_cto ≢ 8
    → fourth_of c y ≢ 0
    → 8 ≤ length (encoded order c x y)
    → Holds c.xcp_slave_fmt c.xcp_slave
    → Holds c.grandmaster_fmt c.grandmaster
    → Holds c.ecu_fmt c.ecu
    → c.cluster_id < 256 ^ 2
    → parse order max_cto (encoded order c x y) ≡ some (event c x y)
parse-encoded order c x y max_cto =
    parse-laid_out order (trigger_of c x) (fourth_of c y) _ _ c.xcp_slave c.grandmaster c.ecu
      c.cluster_id c.counter c.sync_state max_cto
      (trigger_info_of-byte c.initiator c.time_of_sampling x)
      (payload_format_of-byte c.xcp_slave_fmt c.grandmaster_fmt c.ecu_fmt c.cluster_identifier y)
