-- ===== src/ErrorMatrix.antt =====
-- What the protocol asks of the master after an error, by service and error code
-- (pyxcp/errormatrix.py: ERROR_MATRIX).
pub mod Action
mod Std
mod Cal
mod Pag
mod Daq1
mod Daq2
mod Pgm
use pyxcp.Prelude.{Option, none, some}
use pyxcp.Types.Command.{Command}
use Action.{Handlers}
use Std.{
  connect_handlers, disconnect_handlers, get_status_handlers, synch_handlers,
  get_comm_mode_info_handlers, get_id_handlers, set_request_handlers, get_seed_handlers,
  unlock_handlers, set_mta_handlers, upload_handlers, short_upload_handlers,
  build_checksum_handlers, transport_layer_cmd_handlers, user_cmd_handlers,
}
use Cal.{
  download_handlers, download_next_handlers, download_max_handlers, short_download_handlers,
  modify_bits_handlers,
}
use Pag.{
  set_cal_page_handlers, get_cal_page_handlers, get_pag_processor_info_handlers,
  get_segment_info_handlers, get_page_info_handlers, set_segment_mode_handlers,
  get_segment_mode_handlers, copy_cal_page_handlers,
}
use Daq1.{
  set_daq_ptr_handlers, write_daq_handlers, set_daq_list_mode_handlers,
  start_stop_daq_list_handlers, start_stop_synch_handlers, clear_daq_list_handlers,
  get_daq_list_info_handlers, write_daq_multiple_handlers, read_daq_handlers,
  get_daq_clock_handlers, get_daq_processor_info_handlers, get_daq_resolution_info_handlers,
  get_daq_list_mode_handlers, get_daq_event_info_handlers,
}
use Daq2.{free_daq_handlers, alloc_daq_handlers, alloc_odt_handlers, alloc_odt_entry_handlers}
use Pgm.{
  program_start_handlers, program_clear_handlers, program_handlers, program_reset_handlers,
  get_pgm_processor_info_handlers, get_sector_info_handlers, program_prepare_handlers,
  program_format_handlers, program_next_handlers, program_max_handlers, program_verify_handlers,
}

-- `ERROR_MATRIX.get(service)`.
unfoldable pub error_matrix : Command → Option Handlers
error_matrix Command.connect = some connect_handlers
error_matrix Command.disconnect = some disconnect_handlers
error_matrix Command.get_status = some get_status_handlers
error_matrix Command.synch = some synch_handlers
error_matrix Command.get_comm_mode_info = some get_comm_mode_info_handlers
error_matrix Command.get_id = some get_id_handlers
error_matrix Command.set_request = some set_request_handlers
error_matrix Command.get_seed = some get_seed_handlers
error_matrix Command.unlock = some unlock_handlers
error_matrix Command.set_mta = some set_mta_handlers
error_matrix Command.upload = some upload_handlers
error_matrix Command.short_upload = some short_upload_handlers
error_matrix Command.build_checksum = some build_checksum_handlers
error_matrix Command.transport_layer_cmd = some transport_layer_cmd_handlers
error_matrix Command.user_cmd = some user_cmd_handlers
error_matrix Command.download = some download_handlers
error_matrix Command.download_next = some download_next_handlers
error_matrix Command.download_max = some download_max_handlers
error_matrix Command.short_download = some short_download_handlers
error_matrix Command.modify_bits = some modify_bits_handlers
error_matrix Command.set_cal_page = some set_cal_page_handlers
error_matrix Command.get_cal_page = some get_cal_page_handlers
error_matrix Command.get_pag_processor_info = some get_pag_processor_info_handlers
error_matrix Command.get_segment_info = some get_segment_info_handlers
error_matrix Command.get_page_info = some get_page_info_handlers
error_matrix Command.set_segment_mode = some set_segment_mode_handlers
error_matrix Command.get_segment_mode = some get_segment_mode_handlers
error_matrix Command.copy_cal_page = some copy_cal_page_handlers
error_matrix Command.set_daq_ptr = some set_daq_ptr_handlers
error_matrix Command.write_daq = some write_daq_handlers
error_matrix Command.set_daq_list_mode = some set_daq_list_mode_handlers
error_matrix Command.start_stop_daq_list = some start_stop_daq_list_handlers
error_matrix Command.start_stop_synch = some start_stop_synch_handlers
error_matrix Command.clear_daq_list = some clear_daq_list_handlers
error_matrix Command.get_daq_list_info = some get_daq_list_info_handlers
error_matrix Command.write_daq_multiple = some write_daq_multiple_handlers
error_matrix Command.read_daq = some read_daq_handlers
error_matrix Command.get_daq_clock = some get_daq_clock_handlers
error_matrix Command.get_daq_processor_info = some get_daq_processor_info_handlers
error_matrix Command.get_daq_resolution_info = some get_daq_resolution_info_handlers
error_matrix Command.get_daq_list_mode = some get_daq_list_mode_handlers
error_matrix Command.get_daq_event_info = some get_daq_event_info_handlers
error_matrix Command.free_daq = some free_daq_handlers
error_matrix Command.alloc_daq = some alloc_daq_handlers
error_matrix Command.alloc_odt = some alloc_odt_handlers
error_matrix Command.alloc_odt_entry = some alloc_odt_entry_handlers
error_matrix Command.program_start = some program_start_handlers
error_matrix Command.program_clear = some program_clear_handlers
error_matrix Command.program = some program_handlers
error_matrix Command.program_reset = some program_reset_handlers
error_matrix Command.get_pgm_processor_info = some get_pgm_processor_info_handlers
error_matrix Command.get_sector_info = some get_sector_info_handlers
error_matrix Command.program_prepare = some program_prepare_handlers
error_matrix Command.program_format = some program_format_handlers
error_matrix Command.program_next = some program_next_handlers
error_matrix Command.program_max = some program_max_handlers
error_matrix Command.program_verify = some program_verify_handlers
error_matrix _ = none
