-- ===== src/TimeCorrelation/Encoded.antt =====
-- A response that was put together from its fields (pyxcp/time_correlation.py:
-- TimeCorrelationPropertiesResponse.parse).
use pyxcp.Prelude.{
  ℕ, ◌+◌, ◌-◌, ◌*◌, ◌/◌, ◌%◌, ◌^◌, ◌<◌, ◌≡◌, refl, sym, ap, ◌∙◌, inl, inr, Bool, Bool-cases, true,
  false, Option, none, some, List, [], ◌∷◌, ◌++◌, bit_and, if◌then◌else◌, arith,
}
use pyxcp.Prelude.Bytes.{Endian, little, big, pack, unpack, unpack-pack}
use pyxcp.TimeCorrelation.{
  SlaveConfig, parse_slave_config, ObservableClocks, parse_observable_clocks, SyncState,
  is_reserved, parse_sync_state, ClockInfo, parse_clock_info, TimeCorrelationPropertiesResponse,
  with_parts, parse_properties,
}
use pyxcp.TimeCorrelation.Fields.{
  config_byte, clocks_byte, sync_byte, info_byte, ConfigFits, ClocksFit, SyncFits, config-parsed,
  clocks-parsed, info-parsed, sync_or_none, sync-parsed,
}

parse-packed :
    (order : Endian) (a b c d e cluster_id : ℕ) (rest : List ℕ)
    → parse_properties order (a ∷ b ∷ c ∷ d ∷ e ∷ (pack order 2 cluster_id ++ rest))
      ≡ with_parts
          (parse_slave_config a)
          (parse_observable_clocks b)
          (parse_clock_info d)
          (parse_sync_state c)
          (unpack order 2 (pack order 2 cluster_id))
unfolding parse_properties pack pyxcp.Prelude.Bytes.digits_of
parse-packed little a b c d e cluster_id rest = refl
parse-packed big a b c d e cluster_id rest = refl

abbrev pub result_of :
    SlaveConfig
    → ObservableClocks
    → SyncState
    → ClockInfo
    → ℕ
    → Option TimeCorrelationPropertiesResponse
result_of config clocks sync info cluster_id =
    if is_reserved sync.slv_clk_sync_state
    then none
    else some (record {
      slave_config = config;
      observable_clocks = clocks;
      sync_state = sync;
      clock_info = info;
      cluster_id = cluster_id;
    })

combine :
    (config : SlaveConfig) (clocks : ObservableClocks) (sync : SyncState) (info : ClockInfo)
    (cluster_id : ℕ)
    → with_parts config clocks info
        (sync_or_none sync.slv_clk_sync_state sync.grandm_clk_sync_state sync.ecu_clk_sync_state)
        (some cluster_id)
      ≡ result_of config clocks sync info cluster_id
combine config clocks sync info cluster_id =
    elim (Bool-cases (is_reserved sync.slv_clk_sync_state)) [
      | inl e ↦ rw (e, if◌then◌else◌) refl
      | inr e ↦ rw (e, if◌then◌else◌) refl
    ]

-- A response that was put together from its fields, each in its bits and the numbers among them not
-- greater than their bits hold, in either byte order, with whatever in the bits that are not used, in the reserved byte and behind, is parsed to exactly
-- these fields, except that it raises ValueError when the state of the slave's clock is one of the
-- reserved 4, 5 and 6.
pub parse_properties-packed :
    (order : Endian) (config : SlaveConfig) (clocks : ObservableClocks) (sync : SyncState)
    (info : ClockInfo) (reserved cluster_id x y z w : ℕ) (rest : List ℕ)
    → ConfigFits config
    → ClocksFit clocks
    → SyncFits sync
    → cluster_id < 2 ^ 16
    → parse_properties order (
        config_byte config x
        ∷ clocks_byte clocks y
        ∷ sync_byte sync z
        ∷ info_byte info w
        ∷ reserved
        ∷ (pack order 2 cluster_id ++ rest))
      ≡ result_of config clocks sync info cluster_id
parse_properties-packed order config clocks sync info reserved cluster_id x y z w rest p q r s =
    parse-packed order (config_byte config x) (clocks_byte clocks y) (sync_byte sync z)
      (info_byte info w) reserved cluster_id rest
    ∙ ap
        (λ c.
          with_parts (parse_slave_config (config_byte config x))
            (parse_observable_clocks (clocks_byte clocks y)) c (parse_sync_state (sync_byte sync z))
            (unpack order 2 (pack order 2 cluster_id)))
        (info-parsed info w)
    ∙ ap
        (λ c.
          with_parts c (parse_observable_clocks (clocks_byte clocks y)) info
            (parse_sync_state (sync_byte sync z)) (unpack order 2 (pack order 2 cluster_id)))
        (config-parsed config x p)
    ∙ ap
        (λ c.
          with_parts config c info (parse_sync_state (sync_byte sync z))
            (unpack order 2 (pack order 2 cluster_id)))
        (clocks-parsed clocks y q)
    ∙ ap (λ c. with_parts config clocks info c (unpack order 2 (pack order 2 cluster_id)))
        (sync-parsed sync z r)
    ∙ ap
        (with_parts config clocks info
          (sync_or_none sync.slv_clk_sync_state sync.grandm_clk_sync_state sync.ecu_clk_sync_state))
        (unpack-pack order 2 cluster_id (omega arith))
    ∙ combine config clocks sync info cluster_id
