-- ===== src/TimeCorrelation.antt =====
-- Time correlation of XCP 1.3 (pyxcp/time_correlation.py: the response to
-- TIME_CORRELATION_PROPERTIES and its bit fields). A member of an enumeration is its number.
pub mod Fields
pub mod Encoded
mod Tests
use pyxcp.Prelude.{
  ℕ, ◌+◌, ◌*◌, ◌/◌, Bool, true, false, not, ◌&&◌, Option, none, some, List, [], ◌∷◌, bit_and,
  bit_or, leb, ◌==◌, if◌then◌else◌,
}
use pyxcp.Prelude.Bytes.{Endian, unpack}

-- `SetProperties.encode`
unfoldable pub encode_set_properties : ℕ → ℕ → Bool → ℕ
encode_set_properties response_fmt time_sync_bridge set_cluster_id =
    bit_or (bit_or (bit_and response_fmt 0x03) (bit_and time_sync_bridge 0x03 * 4))
      ((if set_cluster_id then 1 else 0) * 16)

pub record SlaveConfig : Type 0 where
  pub response_fmt : ℕ
  pub daq_ts_relation : ℕ
  pub time_sync_bridge : ℕ

unfoldable pub parse_slave_config : ℕ → SlaveConfig
parse_slave_config value = record {
  response_fmt = bit_and value 0x03;
  daq_ts_relation = bit_and (value / 4) 0x01;
  time_sync_bridge = bit_and (value / 8) 0x03;
}

pub record ObservableClocks : Type 0 where
  pub xcp_slv_clk : ℕ
  pub grandm_clk : ℕ
  pub ecu_clk : ℕ

unfoldable pub parse_observable_clocks : ℕ → ObservableClocks
parse_observable_clocks value = record {
  xcp_slv_clk = bit_and value 0x03;
  grandm_clk = bit_and (value / 4) 0x03;
  ecu_clk = bit_and (value / 16) 0x03;
}

pub record SyncState : Type 0 where
  pub slv_clk_sync_state : ℕ
  pub grandm_clk_sync_state : ℕ
  pub ecu_clk_sync_state : ℕ

-- `SlavClockSyncState` has no member for 4, 5 and 6.
abbrev pub is_reserved : ℕ → Bool
is_reserved n = leb 4 n && leb n 6

-- none is the ValueError of the enumeration.
unfoldable pub parse_sync_state : ℕ → Option SyncState
parse_sync_state value =
    if is_reserved (bit_and value 0x07)
    then none
    else some (record {
      slv_clk_sync_state = bit_and value 0x07;
      grandm_clk_sync_state = bit_and (value / 8) 0x01;
      ecu_clk_sync_state = bit_and (value / 16) 0x03;
    })

pub record ClockInfo : Type 0 where
  pub slv_clk_info : Bool
  pub grandm_clk_info : Bool
  pub clk_relation : Bool
  pub ecu_clk_info : Bool
  pub ecu_grandm_clk_info : Bool

abbrev pub has_bit : ℕ → ℕ → Bool
has_bit value bit = not (bit_and value bit == 0)

unfoldable pub parse_clock_info : ℕ → ClockInfo
parse_clock_info value = record {
  slv_clk_info = has_bit value 0x01;
  grandm_clk_info = has_bit value 0x02;
  clk_relation = has_bit value 0x04;
  ecu_clk_info = has_bit value 0x08;
  ecu_grandm_clk_info = has_bit value 0x10;
}

pub record TimeCorrelationPropertiesResponse : Type 0 where
  pub slave_config : SlaveConfig
  pub observable_clocks : ObservableClocks
  pub sync_state : SyncState
  pub clock_info : ClockInfo
  pub cluster_id : ℕ

abbrev pub with_parts :
    SlaveConfig
    → ObservableClocks
    → ClockInfo
    → Option SyncState
    → Option ℕ
    → Option TimeCorrelationPropertiesResponse
with_parts config clocks info (some sync) (some cluster_id) = some (record {
  slave_config = config;
  observable_clocks = clocks;
  sync_state = sync;
  clock_info = info;
  cluster_id = cluster_id;
})
with_parts config clocks info (some sync) none = none
with_parts config clocks info none cluster_id = none

-- `parse`, for a response without its first byte; fewer than 7 bytes are a ValueError.
unfoldable pub parse_properties : Endian → List ℕ → Option TimeCorrelationPropertiesResponse
unfolding parse_slave_config parse_observable_clocks parse_sync_state parse_clock_info
parse_properties order (a ∷ b ∷ c ∷ d ∷ e ∷ f ∷ g ∷ rest) =
    with_parts (parse_slave_config a) (parse_observable_clocks b) (parse_clock_info d)
      (parse_sync_state c) (unpack order 2 (f ∷ g ∷ []))
parse_properties order response = none
