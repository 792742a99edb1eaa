-- ===== src/ErrorMatrix/Daq1.antt =====
-- Rows of ERROR_MATRIX in pyxcp/errormatrix.py: the data acquisition commands.
use pyxcp.Prelude.{[], ◌∷◌}
use pyxcp.Types.XcpError.{
  err_access_denied, err_access_locked, err_cmd_busy, err_cmd_syntax, err_cmd_unknown,
  err_daq_active, err_daq_config, err_mode_not_valid, err_out_of_range, err_pgm_active,
  err_resource_temporary_not_accessible, err_timeout, err_write_protected,
}
use pyxcp.ErrorMatrix.Action.{PreAction, Action, one, many, Handlers, handles}

abbrev pub set_daq_ptr_handlers : Handlers
set_daq_ptr_handlers =
    handles err_timeout (many (PreAction.synch ∷ [])) (one Action.repeat_2_times)
    ∷ handles err_cmd_busy (one PreAction.wait_t7) (one Action.repeat_inf_times)
    ∷ handles err_daq_active (one PreAction.none) (one Action.repeat_2_times)
    ∷ handles err_pgm_active (one PreAction.wait_t7) (one Action.repeat_inf_times)
    ∷ handles err_cmd_syntax (one PreAction.none) (one Action.retry_syntax)
    ∷ handles err_out_of_range (one PreAction.none) (one Action.retry_param)
    ∷ handles err_access_locked (one PreAction.unlock_slave) (one Action.repeat_2_times)
    ∷ handles err_resource_temporary_not_accessible (one PreAction.display_error)
        (one Action.repeat)
    ∷ []

abbrev pub write_daq_handlers : Handlers
write_daq_handlers =
    handles err_timeout (many (PreAction.synch ∷ PreAction.set_daq_ptr ∷ []))
      (one Action.repeat_2_times)
    ∷ handles err_cmd_busy (one PreAction.wait_t7) (one Action.repeat_inf_times)
    ∷ handles err_daq_active (one PreAction.start_stop_x) (one Action.repeat_2_times)
    ∷ handles err_pgm_active (one PreAction.wait_t7) (one Action.repeat_inf_times)
    ∷ handles err_cmd_syntax (one PreAction.none) (one Action.retry_syntax)
    ∷ handles err_out_of_range (one PreAction.none) (one Action.retry_param)
    ∷ handles err_access_denied (one PreAction.none) (one Action.display_error)
    ∷ handles err_access_locked (one PreAction.unlock_slave) (one Action.repeat_2_times)
    ∷ handles err_write_protected (one PreAction.none) (one Action.display_error)
    ∷ handles err_daq_config (one PreAction.none) (one Action.display_error)
    ∷ handles err_resource_temporary_not_accessible (one PreAction.display_error)
        (one Action.repeat)
    ∷ []

abbrev pub set_daq_list_mode_handlers : Handlers
set_daq_list_mode_handlers =
    handles err_timeout (many (PreAction.synch ∷ [])) (one Action.repeat_2_times)
    ∷ handles err_cmd_busy (one PreAction.wait_t7) (one Action.repeat_inf_times)
    ∷ handles err_daq_active (one PreAction.start_stop_x) (one Action.repeat_2_times)
    ∷ handles err_pgm_active (one PreAction.wait_t7) (one Action.repeat_inf_times)
    ∷ handles err_cmd_syntax (one PreAction.none) (one Action.retry_syntax)
    ∷ handles err_out_of_range (one PreAction.none) (one Action.retry_param)
    ∷ handles err_access_locked (one PreAction.unlock_slave) (one Action.repeat_2_times)
    ∷ handles err_mode_not_valid (one PreAction.none) (one Action.retry_param)
    ∷ handles err_resource_temporary_not_accessible (one PreAction.display_error)
        (one Action.repeat)
    ∷ []

abbrev pub start_stop_daq_list_handlers : Handlers
start_stop_daq_list_handlers =
    handles err_timeout (many (PreAction.synch ∷ [])) (one Action.repeat_2_times)
    ∷ handles err_cmd_busy (one PreAction.wait_t7) (one Action.repeat_inf_times)
    ∷ handles err_pgm_active (one PreAction.wait_t7) (one Action.repeat_inf_times)
    ∷ handles err_cmd_syntax (one PreAction.none) (one Action.retry_syntax)
    ∷ handles err_out_of_range (one PreAction.none) (one Action.retry_param)
    ∷ handles err_access_locked (one PreAction.unlock_slave) (one Action.repeat_2_times)
    ∷ handles err_mode_not_valid (one PreAction.none) (one Action.retry_param)
    ∷ handles err_daq_config (one PreAction.none) (one Action.display_error)
    ∷ handles err_resource_temporary_not_accessible (one PreAction.display_error)
        (one Action.repeat)
    ∷ []

abbrev pub start_stop_synch_handlers : Handlers
start_stop_synch_handlers =
    handles err_timeout (many (PreAction.synch ∷ [])) (one Action.repeat_2_times)
    ∷ handles err_cmd_busy (one PreAction.wait_t7) (one Action.repeat_inf_times)
    ∷ handles err_pgm_active (one PreAction.wait_t7) (one Action.repeat_inf_times)
    ∷ handles err_cmd_syntax (one PreAction.none) (one Action.retry_syntax)
    ∷ handles err_access_locked (one PreAction.unlock_slave) (one Action.repeat_2_times)
    ∷ handles err_mode_not_valid (one PreAction.none) (one Action.retry_param)
    ∷ handles err_daq_config (one PreAction.none) (one Action.display_error)
    ∷ handles err_resource_temporary_not_accessible (one PreAction.display_error)
        (one Action.repeat)
    ∷ []

abbrev pub clear_daq_list_handlers : Handlers
clear_daq_list_handlers =
    handles err_timeout (many (PreAction.synch ∷ [])) (one Action.repeat_2_times)
    ∷ handles err_cmd_busy (one PreAction.wait_t7) (one Action.repeat_inf_times)
    ∷ handles err_pgm_active (one PreAction.wait_t7) (one Action.repeat_inf_times)
    ∷ handles err_cmd_syntax (one PreAction.none) (one Action.retry_syntax)
    ∷ handles err_out_of_range (one PreAction.none) (one Action.retry_param)
    ∷ handles err_access_denied (one PreAction.none) (one Action.display_error)
    ∷ handles err_access_locked (one PreAction.unlock_slave) (one Action.repeat_2_times)
    ∷ handles err_resource_temporary_not_accessible (one PreAction.display_error)
        (one Action.repeat)
    ∷ []

abbrev pub get_daq_list_info_handlers : Handlers
get_daq_list_info_handlers =
    handles err_timeout (many (PreAction.synch ∷ [])) (one Action.repeat_2_times)
    ∷ handles err_cmd_busy (one PreAction.wait_t7) (one Action.repeat_inf_times)
    ∷ handles err_pgm_active (one PreAction.wait_t7) (one Action.repeat_inf_times)
    ∷ handles err_cmd_unknown (one PreAction.none) (one Action.use_a2l)
    ∷ handles err_cmd_syntax (one PreAction.none) (one Action.retry_syntax)
    ∷ handles err_out_of_range (one PreAction.none) (one Action.retry_param)
    ∷ handles err_access_locked (one PreAction.unlock_slave) (one Action.repeat_2_times)
    ∷ handles err_resource_temporary_not_accessible (one PreAction.none) (one Action.skip)
    ∷ []

abbrev pub write_daq_multiple_handlers : Handlers
write_daq_multiple_handlers =
    handles err_timeout (many (PreAction.synch ∷ PreAction.set_daq_ptr ∷ []))
      (one Action.repeat_2_times)
    ∷ handles err_cmd_unknown (one PreAction.none) (one Action.display_error)
    ∷ handles err_cmd_busy (one PreAction.wait_t7) (one Action.repeat_inf_times)
    ∷ handles err_daq_active (one PreAction.start_stop_x) (one Action.repeat_2_times)
    ∷ handles err_pgm_active (one PreAction.wait_t7) (one Action.repeat_inf_times)
    ∷ handles err_cmd_syntax (one PreAction.none) (one Action.retry_syntax)
    ∷ handles err_out_of_range (one PreAction.none) (one Action.retry_param)
    ∷ handles err_access_denied (one PreAction.none) (one Action.display_error)
    ∷ handles err_access_locked (one PreAction.unlock_slave) (one Action.repeat_2_times)
    ∷ handles err_write_protected (one PreAction.none) (one Action.display_error)
    ∷ handles err_daq_config (one PreAction.none) (one Action.display_error)
    ∷ handles err_resource_temporary_not_accessible (one PreAction.display_error)
        (one Action.repeat)
    ∷ []

abbrev pub read_daq_handlers : Handlers
read_daq_handlers =
    handles err_timeout (many (PreAction.synch ∷ PreAction.set_daq_ptr ∷ []))
      (one Action.repeat_2_times)
    ∷ handles err_cmd_busy (one PreAction.wait_t7) (one Action.repeat_inf_times)
    ∷ handles err_pgm_active (one PreAction.wait_t7) (one Action.repeat_inf_times)
    ∷ handles err_cmd_unknown (one PreAction.none) (one Action.display_error)
    ∷ handles err_cmd_syntax (one PreAction.none) (one Action.retry_syntax)
    ∷ handles err_access_locked (one PreAction.unlock_slave) (one Action.repeat_2_times)
    ∷ handles err_resource_temporary_not_accessible (one PreAction.display_error)
        (one Action.repeat)
    ∷ []

abbrev pub get_daq_clock_handlers : Handlers
get_daq_clock_handlers =
    handles err_timeout (many (PreAction.synch ∷ [])) (one Action.repeat_2_times)
    ∷ handles err_cmd_busy (one PreAction.wait_t7) (one Action.repeat_inf_times)
    ∷ handles err_pgm_active (one PreAction.wait_t7) (one Action.repeat_inf_times)
    ∷ handles err_cmd_unknown (one PreAction.none) (one Action.display_error)
    ∷ handles err_cmd_syntax (one PreAction.none) (one Action.retry_syntax)
    ∷ handles err_access_locked (one PreAction.unlock_slave) (one Action.repeat_2_times)
    ∷ handles err_resource_temporary_not_accessible (one PreAction.none) (one Action.skip)
    ∷ []

abbrev pub get_daq_processor_info_handlers : Handlers
get_daq_processor_info_handlers =
    handles err_timeout (many (PreAction.synch ∷ [])) (one Action.repeat_2_times)
    ∷ handles err_cmd_busy (one PreAction.wait_t7) (one Action.repeat_inf_times)
    ∷ handles err_pgm_active (one PreAction.wait_t7) (one Action.repeat_inf_times)
    ∷ handles err_cmd_unknown (one PreAction.none) (one Action.use_a2l)
    ∷ handles err_cmd_syntax (one PreAction.none) (one Action.retry_syntax)
    ∷ handles err_access_locked (one PreAction.unlock_slave) (one Action.repeat_2_times)
    ∷ handles err_resource_temporary_not_accessible (one PreAction.none) (one Action.skip)
    ∷ []

abbrev pub get_daq_resolution_info_handlers : Handlers
get_daq_resolution_info_handlers =
    handles err_timeout (many (PreAction.synch ∷ [])) (one Action.repeat_2_times)
    ∷ handles err_cmd_busy (one PreAction.wait_t7) (one Action.repeat_inf_times)
    ∷ handles err_pgm_active (one PreAction.wait_t7) (one Action.repeat_inf_times)
    ∷ handles err_cmd_unknown (one PreAction.none) (one Action.use_a2l)
    ∷ handles err_cmd_syntax (one PreAction.none) (one Action.retry_syntax)
    ∷ handles err_access_locked (one PreAction.unlock_slave) (one Action.repeat_2_times)
    ∷ handles err_resource_temporary_not_accessible (one PreAction.none) (one Action.skip)
    ∷ []

abbrev pub get_daq_list_mode_handlers : Handlers
get_daq_list_mode_handlers =
    handles err_timeout (many (PreAction.synch ∷ [])) (one Action.repeat_2_times)
    ∷ handles err_cmd_busy (one PreAction.wait_t7) (one Action.repeat_inf_times)
    ∷ handles err_pgm_active (one PreAction.wait_t7) (one Action.repeat_inf_times)
    ∷ handles err_cmd_syntax (one PreAction.none) (one Action.retry_syntax)
    ∷ handles err_out_of_range (one PreAction.none) (one Action.retry_param)
    ∷ handles err_access_locked (one PreAction.unlock_slave) (one Action.repeat_2_times)
    ∷ handles err_resource_temporary_not_accessible (one PreAction.display_error)
        (one Action.repeat)
    ∷ []

abbrev pub get_daq_event_info_handlers : Handlers
get_daq_event_info_handlers =
    handles err_timeout (many (PreAction.synch ∷ [])) (one Action.repeat_2_times)
    ∷ handles err_cmd_busy (one PreAction.wait_t7) (one Action.repeat_inf_times)
    ∷ handles err_pgm_active (one PreAction.wait_t7) (one Action.repeat_inf_times)
    ∷ handles err_cmd_unknown (one PreAction.none) (one Action.use_a2l)
    ∷ handles err_cmd_syntax (one PreAction.none) (one Action.retry_syntax)
    ∷ handles err_out_of_range (one PreAction.none) (one Action.retry_param)
    ∷ handles err_access_locked (one PreAction.unlock_slave) (one Action.repeat_2_times)
    ∷ handles err_resource_temporary_not_accessible (one PreAction.none) (one Action.skip)
    ∷ []
