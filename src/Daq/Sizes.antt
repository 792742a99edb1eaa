-- ===== src/Daq/Sizes.antt =====
-- The sizes of the transfer objects and the layout of a DAQ list (pyxcp/daq_stim/__init__.py:
-- DaqProcessor.setup). Sizes are numbers; a MAX_DTO below the overhead, for which Python has
-- negative sizes, has sizes 0 here.
pub mod Frames
use pyxcp.Prelude.{
  ℕ, ◌+◌, ◌-◌, Bool, true, false, not, ◌&&◌, ◌||◌, Option, none, some, List, [], ◌∷◌, min,
  if◌then◌else◌,
}
use pyxcp.Optimize.BinPacking.{Bin, Packing, first_fit_decreasing}
use pyxcp.Optimize.Blocks.{McObject, Section, make_continuous_blocks}

-- `identificationField`
pub data IdField : Type 0 where
  idf_abs_odt_number : IdField
  idf_rel_odt_number_abs_daq_list_number_byte : IdField
  idf_rel_odt_number_abs_daq_list_number_word : IdField
  idf_rel_odt_number_abs_daq_list_number_word_aligned : IdField

-- `DAQ_ID_FIELD_SIZE`
unfoldable pub daq_id_field_size : IdField → ℕ
daq_id_field_size idf_abs_odt_number = 1
daq_id_field_size idf_rel_odt_number_abs_daq_list_number_byte = 2
daq_id_field_size idf_rel_odt_number_abs_daq_list_number_word = 3
daq_id_field_size idf_rel_odt_number_abs_daq_list_number_word_aligned = 4

pub data TimestampSize : Type 0 where
  s1 : TimestampSize
  s2 : TimestampSize
  s4 : TimestampSize

-- `DAQ_TIMESTAMP_SIZE`
unfoldable pub daq_timestamp_size : TimestampSize → ℕ
daq_timestamp_size s1 = 1
daq_timestamp_size s2 = 2
daq_timestamp_size s4 = 4

-- The answers of the slave that the sizes depend on, and the PID_OFF of the configuration.
pub record DaqInfo : Type 0 where
  pub timestamp_supported : Bool
  pub timestamp_fixed : Bool
  pub timestamp_size : TimestampSize
  pub pid_off_supported : Bool
  pub identification_field : IdField
  pub max_odt_entry_size_daq : ℕ
  pub max_dto : ℕ
  pub interleaved_mode : Bool
  pub pid_off : Bool

module _ (i : DaqInfo) where
  unfoldable pub ts_size : ℕ
  ts_size = if i.timestamp_supported then daq_timestamp_size i.timestamp_size else 0

  unfoldable pub ts_fixed : Bool
  ts_fixed = i.timestamp_supported && i.timestamp_fixed

  unfoldable pub selectable_timestamps : Bool
  selectable_timestamps = i.timestamp_supported && not i.timestamp_fixed

  unfoldable pub overhead : ℕ
  overhead = daq_id_field_size i.identification_field + (if i.interleaved_mode then 1 else 0)

  -- `max_odt_container_size` before PID_OFF is looked at, which bounds the entries too.
  unfoldable pub capacity : ℕ
  unfolding overhead
  capacity = i.max_dto - overhead

  unfoldable pub max_entry_size : ℕ
  unfolding capacity
  max_entry_size = min i.max_odt_entry_size_daq capacity

  -- `id_field == "IDF_ABS_ODT_NUMBER"`
  unfoldable pub is_abs_odt_number : IdField → Bool
  is_abs_odt_number idf_abs_odt_number = true
  is_abs_odt_number f = false

  unfoldable pub switch_pid_off : Bool
  unfolding is_abs_odt_number
  switch_pid_off = i.pid_off && (i.pid_off_supported && is_abs_odt_number i.identification_field)

  unfoldable pub max_odt_container_size : ℕ
  unfolding capacity switch_pid_off
  max_odt_container_size = if switch_pid_off then capacity + 1 else capacity

  unfoldable pub max_odt_container_size_first : ℕ
  unfolding max_odt_container_size ts_size ts_fixed
  max_odt_container_size_first =
      if ts_fixed then max_odt_container_size - ts_size else max_odt_container_size

  -- `container_first` of a list.
  unfoldable pub container_first : Bool → ℕ
  unfolding max_odt_container_size max_odt_container_size_first ts_size selectable_timestamps
  container_first enable_timestamps =
      if selectable_timestamps
      then (if enable_timestamps then max_odt_container_size - ts_size else max_odt_container_size)
      else max_odt_container_size_first

  -- `measurements_opt`
  unfoldable pub optimise : Bool → List McObject → Packing Section
  unfolding container_first max_odt_container_size max_entry_size make_continuous_blocks
      first_fit_decreasing
  optimise enable_timestamps measurements =
      first_fit_decreasing (λ s. s.length)
        (make_continuous_blocks measurements (some max_entry_size) (some max_entry_size))
        max_odt_container_size (some (container_first enable_timestamps))
