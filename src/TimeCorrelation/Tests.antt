-- ===== src/TimeCorrelation/Tests.antt =====
-- Responses of single slaves.
use pyxcp.Prelude.{◌≡◌, refl, true, false, ◌++◌, none, some, [], ◌∷◌, arith}
use pyxcp.Prelude.Bytes.{big, little, pack}
use pyxcp.TimeCorrelation.{
  SlaveConfig, ObservableClocks, SyncState, ClockInfo, encode_set_properties, parse_sync_state,
  parse_properties,
}
use pyxcp.TimeCorrelation.Fields.{config_byte, clocks_byte, sync_byte, info_byte}
use pyxcp.TimeCorrelation.Encoded.{result_of, parse_properties-packed}

-- All triggers, the bridge is enabled, and the identifier of the cluster is set.
encode_set_properties-all : encode_set_properties 2 2 true ≡ 26
unfolding encode_set_properties
encode_set_properties-all = refl

parse_sync_state-synchronized :
    parse_sync_state 0x19
    ≡ some (record { slv_clk_sync_state = 1; grandm_clk_sync_state = 1; ecu_clk_sync_state = 1 })
unfolding parse_sync_state
parse_sync_state-synchronized = refl

parse_sync_state-reserved : parse_sync_state 0x04 ≡ none
unfolding parse_sync_state
parse_sync_state-reserved = refl

parse_properties-short : parse_properties little (1 ∷ 2 ∷ 3 ∷ 4 ∷ 5 ∷ 6 ∷ []) ≡ none
unfolding parse_properties
parse_properties-short = refl

abbrev config : SlaveConfig
config = record { response_fmt = 2; daq_ts_relation = 1; time_sync_bridge = 1 }

abbrev clocks : ObservableClocks
clocks = record { xcp_slv_clk = 1; grandm_clk = 2; ecu_clk = 3 }

abbrev sync : SyncState
sync = record { slv_clk_sync_state = 7; grandm_clk_sync_state = 1; ecu_clk_sync_state = 2 }

abbrev info : ClockInfo
info = record {
  slv_clk_info = true;
  grandm_clk_info = false;
  clk_relation = true;
  ecu_clk_info = true;
  ecu_grandm_clk_info = false;
}

parse_properties-packed_example :
    parse_properties big (
      config_byte config 5
      ∷ clocks_byte clocks 1
      ∷ sync_byte sync 0
      ∷ info_byte info 3
      ∷ 0
      ∷ (pack big 2 0x1234 ++ (9 ∷ [])))
    ≡ result_of config clocks sync info 0x1234
parse_properties-packed_example =
    parse_properties-packed big config clocks sync info 0 0x1234 5 1 0 3 (9 ∷ [])
      (omega arith, omega arith, omega arith) (omega arith, omega arith, omega arith)
      (omega arith, omega arith, omega arith) (omega arith)
