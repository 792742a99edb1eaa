-- ===== src/ErrorMatrix/Pgm.antt =====
-- Rows of ERROR_MATRIX in pyxcp/errormatrix.py: the programming commands.
use pyxcp.Prelude.{[], ◌∷◌}
use pyxcp.Types.XcpError.{
  err_access_denied, err_access_locked, err_cmd_busy, err_cmd_syntax, err_cmd_unknown,
  err_daq_active, err_generic, err_memory_overflow, err_mode_not_valid, err_out_of_range,
  err_pgm_active, err_resource_temporary_not_accessible, err_segment_not_valid, err_sequence,
  err_timeout, err_verify,
}
use pyxcp.ErrorMatrix.Action.{PreAction, Action, one, many, Handlers, handles}

abbrev pub program_start_handlers : Handlers
program_start_handlers =
    handles err_timeout (many (PreAction.synch ∷ [])) (one Action.repeat_2_times)
    ∷ handles err_cmd_busy (one PreAction.wait_t7) (one Action.repeat_inf_times)
    ∷ handles err_daq_active (one PreAction.start_stop_x) (one Action.repeat_2_times)
    ∷ handles err_cmd_syntax (one PreAction.none) (one Action.retry_syntax)
    ∷ handles err_access_locked (one PreAction.unlock_slave) (one Action.repeat_2_times)
    ∷ handles err_generic (one PreAction.none) (one Action.restart_session)
    ∷ handles err_resource_temporary_not_accessible (one PreAction.display_error)
        (one Action.repeat)
    ∷ []

abbrev pub program_clear_handlers : Handlers
program_clear_handlers =
    handles err_timeout (many (PreAction.synch ∷ PreAction.set_mta ∷ []))
      (one Action.repeat_2_times)
    ∷ handles err_cmd_busy (one PreAction.wait_t7) (one Action.repeat_inf_times)
    ∷ handles err_cmd_syntax (one PreAction.none) (one Action.retry_syntax)
    ∷ handles err_out_of_range (one PreAction.none) (one Action.retry_param)
    ∷ handles err_access_denied (one PreAction.none) (one Action.display_error)
    ∷ handles err_access_locked (one PreAction.unlock_slave) (one Action.repeat_2_times)
    ∷ handles err_sequence (one PreAction.none) (one Action.repeat_2_times)
    ∷ handles err_resource_temporary_not_accessible (one PreAction.display_error)
        (one Action.repeat)
    ∷ []

abbrev pub program_handlers : Handlers
program_handlers =
    handles err_timeout (many (PreAction.synch ∷ PreAction.set_mta ∷ []))
      (one Action.repeat_2_times)
    ∷ handles err_cmd_busy (one PreAction.wait_t7) (one Action.repeat_inf_times)
    ∷ handles err_cmd_syntax (one PreAction.none) (one Action.retry_syntax)
    ∷ handles err_out_of_range (one PreAction.none) (one Action.retry_param)
    ∷ handles err_access_denied (one PreAction.none) (one Action.display_error)
    ∷ handles err_access_locked (one PreAction.unlock_slave) (one Action.repeat_2_times)
    ∷ handles err_sequence (one PreAction.none) (one Action.repeat_2_times)
    ∷ handles err_memory_overflow (one PreAction.none) (one Action.display_error)
    ∷ handles err_resource_temporary_not_accessible (one PreAction.display_error)
        (one Action.repeat)
    ∷ []

abbrev pub program_reset_handlers : Handlers
program_reset_handlers =
    handles err_timeout (many (PreAction.synch ∷ [])) (one Action.repeat_2_times)
    ∷ handles err_cmd_busy (one PreAction.wait_t7) (one Action.repeat_inf_times)
    ∷ handles err_pgm_active (one PreAction.wait_t7) (one Action.repeat_inf_times)
    ∷ handles err_cmd_syntax (one PreAction.none) (one Action.retry_syntax)
    ∷ handles err_access_locked (one PreAction.unlock_slave) (one Action.repeat_2_times)
    ∷ handles err_sequence (one PreAction.none) (one Action.repeat_2_times)
    ∷ handles err_resource_temporary_not_accessible (one PreAction.display_error)
        (one Action.repeat)
    ∷ []

abbrev pub get_pgm_processor_info_handlers : Handlers
get_pgm_processor_info_handlers =
    handles err_timeout (many (PreAction.synch ∷ [])) (one Action.repeat_2_times)
    ∷ handles err_cmd_busy (one PreAction.wait_t7) (one Action.repeat_inf_times)
    ∷ handles err_cmd_unknown (one PreAction.none) (one Action.use_a2l)
    ∷ handles err_cmd_syntax (one PreAction.none) (one Action.retry_syntax)
    ∷ handles err_access_locked (one PreAction.unlock_slave) (one Action.repeat_2_times)
    ∷ handles err_resource_temporary_not_accessible (one PreAction.none) (one Action.skip)
    ∷ []

abbrev pub get_sector_info_handlers : Handlers
get_sector_info_handlers =
    handles err_timeout (many (PreAction.synch ∷ [])) (one Action.repeat_2_times)
    ∷ handles err_cmd_busy (one PreAction.wait_t7) (one Action.repeat_inf_times)
    ∷ handles err_cmd_unknown (one PreAction.none) (one Action.use_a2l)
    ∷ handles err_cmd_syntax (one PreAction.none) (one Action.retry_syntax)
    ∷ handles err_access_locked (one PreAction.unlock_slave) (one Action.repeat_2_times)
    ∷ handles err_mode_not_valid (one PreAction.none) (one Action.retry_param)
    ∷ handles err_segment_not_valid (one PreAction.none) (one Action.retry_param)
    ∷ handles err_resource_temporary_not_accessible (one PreAction.none) (one Action.skip)
    ∷ []

abbrev pub program_prepare_handlers : Handlers
program_prepare_handlers =
    handles err_timeout (many (PreAction.synch ∷ PreAction.set_mta ∷ []))
      (one Action.repeat_2_times)
    ∷ handles err_cmd_busy (one PreAction.wait_t7) (one Action.repeat_inf_times)
    ∷ handles err_cmd_unknown (one PreAction.none) (one Action.display_error)
    ∷ handles err_cmd_syntax (one PreAction.none) (one Action.retry_syntax)
    ∷ handles err_out_of_range (one PreAction.none) (one Action.retry_param)
    ∷ handles err_access_locked (one PreAction.unlock_slave) (one Action.repeat_2_times)
    ∷ handles err_sequence (one PreAction.none) (one Action.repeat_2_times)
    ∷ handles err_generic (one PreAction.none) (one Action.restart_session)
    ∷ handles err_resource_temporary_not_accessible (one PreAction.display_error)
        (one Action.repeat)
    ∷ []

abbrev pub program_format_handlers : Handlers
program_format_handlers =
    handles err_timeout (many (PreAction.synch ∷ [])) (one Action.repeat_2_times)
    ∷ handles err_cmd_busy (one PreAction.wait_t7) (one Action.repeat_inf_times)
    ∷ handles err_cmd_unknown (one PreAction.none) (one Action.display_error)
    ∷ handles err_cmd_syntax (one PreAction.none) (one Action.retry_syntax)
    ∷ handles err_out_of_range (one PreAction.none) (one Action.retry_param)
    ∷ handles err_access_locked (one PreAction.unlock_slave) (one Action.repeat_2_times)
    ∷ handles err_sequence (one PreAction.none) (one Action.repeat_2_times)
    ∷ handles err_resource_temporary_not_accessible (one PreAction.display_error)
        (one Action.repeat)
    ∷ []

abbrev pub program_next_handlers : Handlers
program_next_handlers =
    handles err_timeout (many (PreAction.synch ∷ PreAction.program ∷ []))
      (one Action.repeat_2_times)
    ∷ handles err_cmd_busy (one PreAction.wait_t7) (one Action.repeat_inf_times)
    ∷ handles err_cmd_unknown (one PreAction.none) (one Action.use_alterative)
    ∷ handles err_cmd_syntax (one PreAction.none) (one Action.retry_syntax)
    ∷ handles err_out_of_range (one PreAction.none) (one Action.retry_param)
    ∷ handles err_access_denied (one PreAction.none) (one Action.display_error)
    ∷ handles err_access_locked (one PreAction.unlock_slave) (one Action.repeat_2_times)
    ∷ handles err_memory_overflow (one PreAction.none) (one Action.display_error)
    ∷ handles err_sequence (one PreAction.none) (one Action.repeat_2_times)
    ∷ handles err_resource_temporary_not_accessible (one PreAction.display_error)
        (one Action.repeat)
    ∷ []

abbrev pub program_max_handlers : Handlers
program_max_handlers =
    handles err_timeout (many (PreAction.synch ∷ PreAction.set_mta ∷ []))
      (one Action.repeat_2_times)
    ∷ handles err_cmd_busy (one PreAction.wait_t7) (one Action.repeat_inf_times)
    ∷ handles err_cmd_unknown (one PreAction.none) (one Action.use_alterative)
    ∷ handles err_access_locked (one PreAction.unlock_slave) (one Action.repeat_2_times)
    ∷ handles err_sequence (one PreAction.none) (one Action.repeat_2_times)
    ∷ handles err_memory_overflow (one PreAction.none) (one Action.display_error)
    ∷ handles err_resource_temporary_not_accessible (one PreAction.display_error)
        (one Action.repeat)
    ∷ []

abbrev pub program_verify_handlers : Handlers
program_verify_handlers =
    handles err_timeout (many (PreAction.synch ∷ [])) (one Action.repeat_2_times)
    ∷ handles err_cmd_busy (one PreAction.wait_t7) (one Action.repeat_inf_times)
    ∷ handles err_cmd_unknown (one PreAction.none) (one Action.display_error)
    ∷ handles err_cmd_syntax (one PreAction.none) (one Action.retry_syntax)
    ∷ handles err_out_of_range (one PreAction.none) (one Action.retry_param)
    ∷ handles err_access_locked (one PreAction.unlock_slave) (one Action.repeat_2_times)
    ∷ handles err_sequence (one PreAction.none) (one Action.repeat_2_times)
    ∷ handles err_generic (one PreAction.none) (one Action.restart_session)
    ∷ handles err_verify (one PreAction.none) (one Action.new_flash_ware)
    ∷ handles err_resource_temporary_not_accessible (one PreAction.display_error)
        (one Action.repeat)
    ∷ []
