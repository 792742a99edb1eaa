-- ===== src/Events/Chain.antt =====
-- The chain of event handlers (pyxcp/events.py: EventHandler and its subclasses,
-- create_default_event_chain), as the transport calls it (pyxcp/transport/base.py:
-- process_event_packet). Log output is left out.
pub mod Effects
pub mod Reception
use pyxcp.Prelude.{
  ℕ, Bool, true, false, ◌||◌, Option, none, some, List, [], ◌∷◌, length, ltb, ◌==◌, if◌then◌else◌,
}
use pyxcp.Prelude.Bytes.{Endian, little, big}
use pyxcp.Transport.{Frame, Transport}
use pyxcp.Types.Event.{
  ev_resume_mode, ev_clear_daq, ev_store_daq, ev_cmd_pending, ev_daq_overload,
  ev_session_terminated, ev_time_sync, ev_stim_timeout, ev_sleep, ev_wake_up, ev_transport,
}
use pyxcp.Events.TimeSync.{TimeSyncEvent, parse}

pub data ByteOrder : Type 0 where
  intel : ByteOrder
  motorola : ByteOrder

-- `SlaveProperties`, a dictionary: none is a key that is missing, and reading it raises KeyError.
-- CONNECT stores both.
pub record SlaveProperties : Type 0 where
  pub max_cto : Option ℕ
  pub byte_order : Option ByteOrder

-- What the handlers see of the transport: the properties of its master, where it has one, and the
-- attributes of its own, with the defaults of a transport that has none.
pub record Options : Type 0 where
  pub slave_properties : Option SlaveProperties
  pub transport_max_cto : ℕ
  pub transport_byte_order : Endian

pub record Session : Type 0 where
  pub options : Options
  pub transport : Transport
  pub last_sync_event : Option TimeSyncEvent

pub record Handler : Type 0 where
  pub can_handle : ℕ → Bool
  pub handle : ℕ → Frame → Session → Bool × Session

-- `process` of the first handler of a chain.
unfoldable pub process : List Handler → ℕ → Frame → Session → Bool × Session
process [] event_code packet s = (false, s)
process (h ∷ next) event_code packet s =
    if h.can_handle event_code
    then (if (h.handle event_code packet s).0
        then h.handle event_code packet s
        else process next event_code packet (h.handle event_code packet s).1)
    else process next event_code packet s

-- `event_code in codes`
unfoldable pub one_of : List ℕ → ℕ → Bool
one_of [] event_code = false
one_of (c ∷ codes) event_code = (event_code == c) || one_of codes event_code

unfoldable pub transport_handle : ℕ → Frame → Session → Bool × Session
transport_handle event_code packet s =
    if event_code == ev_cmd_pending
    then (true, record s { transport = record s.transport { timer_restart_event = true } })
    else (if event_code == ev_transport then (true, s) else (false, s))

unfoldable pub transport_handler : Handler
transport_handler = record {
  can_handle = one_of (ev_cmd_pending ∷ ev_transport ∷ []);
  handle = transport_handle;
}

unfoldable pub byte_order_of : ByteOrder → Endian
byte_order_of motorola = big
byte_order_of intel = little

-- The properties of a master, of which both are there; `getattr` with a default does not catch the
-- KeyError of a missing one.
unfoldable pub from_properties : Option ℕ → Option ByteOrder → Option (ℕ × Endian)
from_properties none byte_order = none
from_properties (some max_cto) none = none
from_properties (some max_cto) (some byte_order) = some (max_cto, byte_order_of byte_order)

-- `_parse_options`: without a master, the options of the transport; none is a KeyError.
unfoldable pub parse_options : Options → Option (ℕ × Endian)
parse_options o = elim o.slave_properties [
  | none ↦ some (o.transport_max_cto, o.transport_byte_order)
  | some p ↦ from_properties p.max_cto p.byte_order
]

-- `TimeSyncEvent.parse` with the options, where there are any.
unfoldable pub sync_event : Option (ℕ × Endian) → Frame → Option TimeSyncEvent
sync_event none packet = none
sync_event (some (max_cto, byte_order)) packet = parse byte_order max_cto packet

-- An event without options, or that cannot be parsed, is consumed and not kept.
abbrev pub keep : Option TimeSyncEvent → Session → Session
keep none s = s
keep (some e) s = record s { last_sync_event = some e }

unfoldable pub time_sync_handle : ℕ → Frame → Session → Bool × Session
time_sync_handle event_code packet s = (true, keep (sync_event (parse_options s.options) packet) s)

unfoldable pub time_sync_handler : Handler
time_sync_handler = record {
  can_handle = λ event_code. event_code == ev_time_sync;
  handle = time_sync_handle;
}

unfoldable pub session_state_codes : List ℕ
session_state_codes = ev_sleep ∷ ev_wake_up ∷ ev_session_terminated ∷ ev_resume_mode ∷ []

-- The handlers that write to the log alone answer true for each of their codes.
unfoldable pub session_state_handler : Handler
session_state_handler = record {
  can_handle = one_of session_state_codes;
  handle = λ event_code packet s. (one_of session_state_codes event_code, s);
}

unfoldable pub daq_stim_codes : List ℕ
daq_stim_codes = ev_daq_overload ∷ ev_stim_timeout ∷ ev_clear_daq ∷ ev_store_daq ∷ []

unfoldable pub daq_stim_handler : Handler
daq_stim_handler = record {
  can_handle = one_of daq_stim_codes;
  handle = λ event_code packet s. (one_of daq_stim_codes event_code, s);
}

-- The last handler takes every code.
unfoldable pub user_handler : Handler
user_handler = record { can_handle = λ event_code. true; handle = λ event_code packet s. (true, s) }

-- `create_default_event_chain`
unfoldable pub default_event_chain : List Handler
default_event_chain =
    transport_handler ∷ time_sync_handler ∷ session_state_handler ∷ daq_stim_handler ∷ user_handler
    ∷ []

-- `process_event_packet`: the second byte is the event code.
unfoldable pub process_event_packet : Frame → Session → Session
process_event_packet [] s = s
process_event_packet (pid ∷ []) s = s
process_event_packet (pid ∷ event_code ∷ rest) s =
    (process default_event_chain event_code (pid ∷ event_code ∷ rest) s).1
