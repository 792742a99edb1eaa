-- ===== src/Types/Event.antt =====
-- The event codes (pyxcp/types.py: Event).
use pyxcp.Prelude.{ℕ}

abbrev pub ev_resume_mode : ℕ
ev_resume_mode = 0x00

abbrev pub ev_clear_daq : ℕ
ev_clear_daq = 0x01

abbrev pub ev_store_daq : ℕ
ev_store_daq = 0x02

abbrev pub ev_store_cal : ℕ
ev_store_cal = 0x03

abbrev pub ev_cmd_pending : ℕ
ev_cmd_pending = 0x05

abbrev pub ev_daq_overload : ℕ
ev_daq_overload = 0x06

abbrev pub ev_session_terminated : ℕ
ev_session_terminated = 0x07

abbrev pub ev_time_sync : ℕ
ev_time_sync = 0x08

abbrev pub ev_stim_timeout : ℕ
ev_stim_timeout = 0x09

abbrev pub ev_sleep : ℕ
ev_sleep = 0x0A

abbrev pub ev_wake_up : ℕ
ev_wake_up = 0x0B

abbrev pub ev_ecu_state_change : ℕ
ev_ecu_state_change = 0x0C

abbrev pub ev_user : ℕ
ev_user = 0xFE

abbrev pub ev_transport : ℕ
ev_transport = 0xFF
