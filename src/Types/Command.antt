-- ===== src/Types/Command.antt =====
-- The commands of XCP and the resource that each belongs to (pyxcp/types.py: Command,
-- CommandCategory, COMMAND_CATEGORIES).
use Prim.Native.Nat.{ℕ}
use mathlib.Core.Option

-- `Command`, an IntEnum.
pub data Command : Type 0 where
  connect disconnect get_status synch get_comm_mode_info get_id set_request get_seed unlock set_mta
        upload short_upload build_checksum transport_layer_cmd user_cmd get_version download
        download_next download_max short_download modify_bits set_cal_page get_cal_page
        get_pag_processor_info get_segment_info get_page_info set_segment_mode get_segment_mode
        copy_cal_page clear_daq_list set_daq_ptr write_daq write_daq_multiple set_daq_list_mode
        get_daq_list_mode start_stop_daq_list start_stop_synch get_daq_clock read_daq
        get_daq_processor_info get_daq_resolution_info get_daq_list_info get_daq_event_info
        dto_ctr_properties set_daq_packed_mode get_daq_packed_mode free_daq alloc_daq alloc_odt
        alloc_odt_entry program_start program_clear program program_reset get_pgm_processor_info
        get_sector_info program_prepare program_format program_next program_max program_verify
        time_correlation_properties dbg_attach dbg_get_vendor_info dbg_get_mode_info dbg_get_jtag_id
        dbg_halt_after_reset dbg_get_hwio_info dbg_set_hwio_event dbg_hwio_control
        dbg_exclusive_target_access dbg_sequence_multiple dbg_llt dbg_read_modify_write dbg_write
        dbg_write_next dbg_write_can1 dbg_write_can2 dbg_write_can_next dbg_read dbg_read_can1
        dbg_read_can2 dbg_get_tri_desc_tbl dbg_llbt :
      Command

-- The value of the member, which is the code that is sent.
pub code : Command → ℕ
code connect = 0xff
code disconnect = 0xfe
code get_status = 0xfd
code synch = 0xfc
code get_comm_mode_info = 0xfb
code get_id = 0xfa
code set_request = 0xf9
code get_seed = 0xf8
code unlock = 0xf7
code set_mta = 0xf6
code upload = 0xf5
code short_upload = 0xf4
code build_checksum = 0xf3
code transport_layer_cmd = 0xf2
code user_cmd = 0xf1
code get_version = 0xc000
code download = 0xf0
code download_next = 0xef
code download_max = 0xee
code short_download = 0xed
code modify_bits = 0xec
code set_cal_page = 0xeb
code get_cal_page = 0xea
code get_pag_processor_info = 0xe9
code get_segment_info = 0xe8
code get_page_info = 0xe7
code set_segment_mode = 0xe6
code get_segment_mode = 0xe5
code copy_cal_page = 0xe4
code clear_daq_list = 0xe3
code set_daq_ptr = 0xe2
code write_daq = 0xe1
code write_daq_multiple = 0xc7
code set_daq_list_mode = 0xe0
code get_daq_list_mode = 0xdf
code start_stop_daq_list = 0xde
code start_stop_synch = 0xdd
code get_daq_clock = 0xdc
code read_daq = 0xdb
code get_daq_processor_info = 0xda
code get_daq_resolution_info = 0xd9
code get_daq_list_info = 0xd8
code get_daq_event_info = 0xd7
code dto_ctr_properties = 0xc5
code set_daq_packed_mode = 0xc001
code get_daq_packed_mode = 0xc002
code free_daq = 0xd6
code alloc_daq = 0xd5
code alloc_odt = 0xd4
code alloc_odt_entry = 0xd3
code program_start = 0xd2
code program_clear = 0xd1
code program = 0xd0
code program_reset = 0xcf
code get_pgm_processor_info = 0xce
code get_sector_info = 0xcd
code program_prepare = 0xcc
code program_format = 0xcb
code program_next = 0xca
code program_max = 0xc9
code program_verify = 0xc8
code time_correlation_properties = 0xc6
code dbg_attach = 0xc0fc00
code dbg_get_vendor_info = 0xc0fc01
code dbg_get_mode_info = 0xc0fc02
code dbg_get_jtag_id = 0xc0fc03
code dbg_halt_after_reset = 0xc0fc04
code dbg_get_hwio_info = 0xc0fc05
code dbg_set_hwio_event = 0xc0fc06
code dbg_hwio_control = 0xc0fc07
code dbg_exclusive_target_access = 0xc0fc08
code dbg_sequence_multiple = 0xc0fc09
code dbg_llt = 0xc0fc0a
code dbg_read_modify_write = 0xc0fc0b
code dbg_write = 0xc0fc0c
code dbg_write_next = 0xc0fc0d
code dbg_write_can1 = 0xc0fc0e
code dbg_write_can2 = 0xc0fc0f
code dbg_write_can_next = 0xc0fc10
code dbg_read = 0xc0fc11
code dbg_read_can1 = 0xc0fc12
code dbg_read_can2 = 0xc0fc13
code dbg_get_tri_desc_tbl = 0xc0fc14
code dbg_llbt = 0xc0fc15

pub data CommandCategory : Type 0 where
  std cal_pag daq stim pgm : CommandCategory

-- `COMMAND_CATEGORIES.get`.
pub category : Command → Option.Option CommandCategory
category connect = Option.some std
category disconnect = Option.some std
category get_status = Option.some std
category synch = Option.some std
category get_comm_mode_info = Option.some std
category get_id = Option.some std
category set_request = Option.some std
category get_seed = Option.some std
category unlock = Option.some std
category set_mta = Option.some std
category upload = Option.some std
category short_upload = Option.some std
category build_checksum = Option.some std
category transport_layer_cmd = Option.some std
category user_cmd = Option.some std
category get_version = Option.some std
category download = Option.some cal_pag
category download_next = Option.some cal_pag
category download_max = Option.some cal_pag
category short_download = Option.some cal_pag
category modify_bits = Option.some cal_pag
category set_cal_page = Option.some cal_pag
category get_cal_page = Option.some cal_pag
category get_pag_processor_info = Option.some cal_pag
category get_segment_info = Option.some cal_pag
category get_page_info = Option.some cal_pag
category set_segment_mode = Option.some cal_pag
category get_segment_mode = Option.some cal_pag
category copy_cal_page = Option.some cal_pag
category clear_daq_list = Option.some daq
category set_daq_ptr = Option.some daq
category write_daq = Option.some daq
category write_daq_multiple = Option.some daq
category set_daq_list_mode = Option.some daq
category get_daq_list_mode = Option.some daq
category start_stop_daq_list = Option.some daq
category start_stop_synch = Option.some daq
category get_daq_clock = Option.some daq
category read_daq = Option.some daq
category get_daq_processor_info = Option.some daq
category get_daq_resolution_info = Option.some daq
category get_daq_list_info = Option.some daq
category get_daq_event_info = Option.some daq
category dto_ctr_properties = Option.some daq
category set_daq_packed_mode = Option.some daq
category get_daq_packed_mode = Option.some daq
category free_daq = Option.some daq
category alloc_daq = Option.some daq
category alloc_odt = Option.some daq
category alloc_odt_entry = Option.some daq
category program_start = Option.some pgm
category program_clear = Option.some pgm
category program = Option.some pgm
category program_reset = Option.some pgm
category get_pgm_processor_info = Option.some pgm
category get_sector_info = Option.some pgm
category program_prepare = Option.some pgm
category program_format = Option.some pgm
category program_next = Option.some pgm
category program_max = Option.some pgm
category program_verify = Option.some pgm
category _ = Option.none
