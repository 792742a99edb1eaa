-- ===== src/TimeCorrelation/Fields.antt =====
-- The bytes of the response to TIME_CORRELATION_PROPERTIES, written out from their fields, and the
-- parsers of each (pyxcp/time_correlation.py).
use pyxcp.Prelude.{
  ℕ, ◌+◌, ◌*◌, ◌/◌, ◌%◌, ◌<◌, ◌≡◌, refl, ap, ◌∙◌, Option, none, some, bit_and, if◌then◌else◌, arith,
}
use pyxcp.Prelude.Masks.{bit_and_one, bit_and_three, bit_and_seven, digit, digit-bound, flag-read}
use pyxcp.TimeCorrelation.{
  SlaveConfig, parse_slave_config, ObservableClocks, parse_observable_clocks, SyncState,
  is_reserved, parse_sync_state, ClockInfo, has_bit, parse_clock_info,
}

-- The bytes, with whatever stands in the bits that are not used.
abbrev pub config_byte : SlaveConfig → ℕ → ℕ
config_byte c high = c.response_fmt + 4 * c.daq_ts_relation + 8 * c.time_sync_bridge + 32 * high

abbrev pub clocks_byte : ObservableClocks → ℕ → ℕ
clocks_byte c high = c.xcp_slv_clk + 4 * c.grandm_clk + 16 * c.ecu_clk + 64 * high

abbrev pub sync_byte : SyncState → ℕ → ℕ
sync_byte c high =
    c.slv_clk_sync_state + 8 * c.grandm_clk_sync_state + 16 * c.ecu_clk_sync_state + 64 * high

abbrev pub info_byte : ClockInfo → ℕ → ℕ
info_byte c high =
    digit c.slv_clk_info
    + 2 * digit c.grandm_clk_info
    + 4 * digit c.clk_relation
    + 8 * digit c.ecu_clk_info
    + 16 * digit c.ecu_grandm_clk_info
    + 32 * high

-- The fields fit their bits.
abbrev pub ConfigFits : SlaveConfig → Type 0
ConfigFits c = (c.response_fmt < 4) × (c.daq_ts_relation < 2) × (c.time_sync_bridge < 4)

abbrev pub ClocksFit : ObservableClocks → Type 0
ClocksFit c = (c.xcp_slv_clk < 4) × (c.grandm_clk < 4) × (c.ecu_clk < 4)

abbrev pub SyncFits : SyncState → Type 0
SyncFits c = (c.slv_clk_sync_state < 8) × (c.grandm_clk_sync_state < 2) × (c.ecu_clk_sync_state < 4)

pub config-parsed :
    (c : SlaveConfig) (high : ℕ) → ConfigFits c → parse_slave_config (config_byte c high) ≡ c
unfolding parse_slave_config
config-parsed c high h =
    let v = config_byte c high in
    let p = h.0 in
    let q = h.1 in
    let r = h.2 in
    let x : bit_and v 0x03 ≡ c.response_fmt = bit_and_three v ∙ omega arith in
    let y : bit_and (v / 4) 0x01 ≡ c.daq_ts_relation = bit_and_one (v / 4) ∙ omega arith in
    let z : bit_and (v / 8) 0x03 ≡ c.time_sync_bridge = bit_and_three (v / 8) ∙ omega arith in
    ap
      (λ n. record {
        response_fmt = n;
        daq_ts_relation = bit_and (v / 4) 0x01;
        time_sync_bridge = bit_and (v / 8) 0x03;
      })
      x
    ∙ ap
        (λ n. record {
          response_fmt = c.response_fmt;
          daq_ts_relation = n;
          time_sync_bridge = bit_and (v / 8) 0x03;
        })
        y
    ∙ ap
        (λ n. record {
          response_fmt = c.response_fmt;
          daq_ts_relation = c.daq_ts_relation;
          time_sync_bridge = n;
        })
        z

pub clocks-parsed :
    (c : ObservableClocks) (high : ℕ)
    → ClocksFit c
    → parse_observable_clocks (clocks_byte c high) ≡ c
unfolding parse_observable_clocks
clocks-parsed c high h =
    let v = clocks_byte c high in
    let p = h.0 in
    let q = h.1 in
    let r = h.2 in
    let x : bit_and v 0x03 ≡ c.xcp_slv_clk = bit_and_three v ∙ omega arith in
    let y : bit_and (v / 4) 0x03 ≡ c.grandm_clk = bit_and_three (v / 4) ∙ omega arith in
    let z : bit_and (v / 16) 0x03 ≡ c.ecu_clk = bit_and_three (v / 16) ∙ omega arith in
    ap
      (λ n. record {
        xcp_slv_clk = n;
        grandm_clk = bit_and (v / 4) 0x03;
        ecu_clk = bit_and (v / 16) 0x03;
      })
      x
    ∙ ap
        (λ n. record {
          xcp_slv_clk = c.xcp_slv_clk;
          grandm_clk = n;
          ecu_clk = bit_and (v / 16) 0x03;
        })
        y
    ∙ ap (λ n. record { xcp_slv_clk = c.xcp_slv_clk; grandm_clk = c.grandm_clk; ecu_clk = n }) z

pub info-parsed : (c : ClockInfo) (high : ℕ) → parse_clock_info (info_byte c high) ≡ c
unfolding parse_clock_info
info-parsed c high =
    let v = info_byte c high in
    let p = digit-bound c.slv_clk_info in
    let q = digit-bound c.grandm_clk_info in
    let r = digit-bound c.clk_relation in
    let s = digit-bound c.ecu_clk_info in
    let a : has_bit v 0x01 ≡ c.slv_clk_info =
      flag-read 0 c.slv_clk_info (v / 2) 0 v (omega arith) (omega arith) (omega arith) in
    let b : has_bit v 0x02 ≡ c.grandm_clk_info =
      flag-read 1 c.grandm_clk_info (v / 4) (v % 2) v (omega arith) (omega arith) (omega arith) in
    let d : has_bit v 0x04 ≡ c.clk_relation =
      flag-read 2 c.clk_relation (v / 8) (v % 4) v (omega arith) (omega arith) (omega arith) in
    let e : has_bit v 0x08 ≡ c.ecu_clk_info =
      flag-read 3 c.ecu_clk_info (v / 16) (v % 8) v (omega arith) (omega arith) (omega arith) in
    let f : has_bit v 0x10 ≡ c.ecu_grandm_clk_info =
      flag-read 4 c.ecu_grandm_clk_info high (v % 16) v (omega arith) (omega arith) (omega arith) in
    rw (a, b, d, e, f) refl

abbrev pub sync_or_none : ℕ → ℕ → ℕ → Option SyncState
sync_or_none n m k =
    if is_reserved n
    then none
    else some (record { slv_clk_sync_state = n; grandm_clk_sync_state = m; ecu_clk_sync_state = k })

pub sync-parsed :
    (c : SyncState) (high : ℕ)
    → SyncFits c
    → parse_sync_state (sync_byte c high)
      ≡ sync_or_none c.slv_clk_sync_state c.grandm_clk_sync_state c.ecu_clk_sync_state
unfolding parse_sync_state
sync-parsed c high h =
    let v = sync_byte c high in
    let p = h.0 in
    let q = h.1 in
    let r = h.2 in
    let x : bit_and v 0x07 ≡ c.slv_clk_sync_state = bit_and_seven v ∙ omega arith in
    let y : bit_and (v / 8) 0x01 ≡ c.grandm_clk_sync_state = bit_and_one (v / 8) ∙ omega arith in
    let z : bit_and (v / 16) 0x03 ≡ c.ecu_clk_sync_state = bit_and_three (v / 16) ∙ omega arith in
    ap (λ n. sync_or_none n (bit_and (v / 8) 0x01) (bit_and (v / 16) 0x03)) x
    ∙ ap (λ n. sync_or_none c.slv_clk_sync_state n (bit_and (v / 16) 0x03)) y
    ∙ ap (λ n. sync_or_none c.slv_clk_sync_state c.grandm_clk_sync_state n) z
