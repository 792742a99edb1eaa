-- ===== src/Daq/Tests.antt =====
-- The configuration of small measurements.
use pyxcp.Prelude.{none, map, ℕ, ◌≡◌, refl, true, false, some, List, [], ◌∷◌, arith}
use mathlib.Core.List.{Perm}
use pyxcp.Optimize.BinPacking.{Bin, packed, place}
use pyxcp.Optimize.BinPacking.Items.{contents}
use pyxcp.Optimize.Blocks.{McObject, Section, make_continuous_blocks}
use pyxcp.Daq.Sizes.{
  DaqInfo, idf_abs_odt_number, s4, ts_size, overhead, capacity, max_entry_size, switch_pid_off,
  max_odt_container_size, max_odt_container_size_first, container_first, optimise,
  daq_id_field_size, daq_timestamp_size, ts_fixed, selectable_timestamps,
}
use pyxcp.Prelude.Sort.{sort}
use pyxcp.Daq.Setup.{
  DaqList, layouts, alloc_odts, odt_entries, alloc_odt_entries, write_entries, write_odts,
  write_daqs, allocate, mode_of, start_list, arm, setup_dynamic, all_predefined, setup_static,
}
use pyxcp.Daq.Setup.Slave.{State}
use pyxcp.Daq.Sizes.Frames.{FramesFit, optimise-FramesFit}

abbrev can_slave : DaqInfo
can_slave = record {
  timestamp_supported = true;
  timestamp_fixed = false;
  timestamp_size = s4;
  pid_off_supported = true;
  identification_field = idf_abs_odt_number;
  max_odt_entry_size_daq = 7;
  max_dto = 8;
  interleaved_mode = false;
  pid_off = true;
}

abbrev mc : ℕ → ℕ → McObject
mc a n = record { address = a; ext = 0; length = n }

abbrev measurements : List McObject
measurements = mc 0x1000 4 ∷ mc 0x1004 2 ∷ mc 0x2000 4 ∷ []

sizes : Unit {0}
unfolding ts_size ts_fixed selectable_timestamps overhead capacity max_entry_size switch_pid_off
    max_odt_container_size max_odt_container_size_first container_first daq_id_field_size
    daq_timestamp_size
sizes = tt

container_first-stamped : container_first can_slave true ≡ 4
unfolding sizes
container_first-stamped = refl

optimise-FramesFit_example :
    (bins : List (Bin Section)) × (optimise can_slave true measurements ≡ packed bins)
    × Perm (contents bins) (
        make_continuous_blocks measurements
          (some (max_entry_size can_slave))
          (some (max_entry_size can_slave)))
    × FramesFit can_slave true bins
unfolding sizes
optimise-FramesFit_example =
    optimise-FramesFit can_slave (omega arith) true measurements (omega arith)
      (omega arith, (omega arith, (omega arith, tt)))

setup : Unit {0}
unfolding sizes optimise sort place layouts alloc_odts odt_entries alloc_odt_entries write_entries
    write_odts write_daqs allocate mode_of start_list arm setup_dynamic all_predefined setup_static
setup = tt

abbrev dynamic_list : DaqList
dynamic_list = record {
  measurements = some measurements;
  enable_timestamps = true;
  stim = false;
  event_num = 1;
  prescaler = 1;
  priority = 0;
  packed_mode = none;
}

abbrev predefined_list : DaqList
predefined_list = record dynamic_list { measurements = none; stim = true }

abbrev first_layout : List (Bin Section)
first_layout =
    record {
      size = 4;
      residual_capacity = 0;
      entries =
          record { address = 0x2000; ext = 0; length = 4; components = mc 0x2000 4 ∷ [] } ∷ [];
    }
    ∷ record {
      size = 8;
      residual_capacity = 2;
      entries =
          record {
            address = 0x1000;
            ext = 0;
            length = 6;
            components = mc 0x1000 4 ∷ mc 0x1004 2 ∷ [];
          }
          ∷ [];
    }
    ∷ []

static : setup_static can_slave (predefined_list ∷ dynamic_list ∷ []) ≡ none
unfolding setup
static = refl

modes : map (mode_of can_slave) (predefined_list ∷ dynamic_list ∷ []) ≡ 0x32 ∷ 0x30 ∷ []
unfolding setup
modes = refl

abbrev slave : State
slave = record {
  min_daq = 2;
  count = 0;
  odt_counts = [];
  entry_counts = [];
  pointer = none;
  written = [];
}
