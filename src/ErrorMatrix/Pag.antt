-- ===== src/ErrorMatrix/Pag.antt =====
-- Rows of ERROR_MATRIX in pyxcp/errormatrix.py: the page switching commands.
use pyxcp.Prelude.{[], ◌∷◌}
use pyxcp.Types.XcpError.{
  err_access_locked, err_cmd_busy, err_cmd_syntax, err_cmd_unknown, err_mode_not_valid,
  err_out_of_range, err_page_not_valid, err_pgm_active, err_resource_temporary_not_accessible,
  err_segment_not_valid, err_timeout,
}
use pyxcp.ErrorMatrix.Action.{PreAction, Action, one, many, Handlers, handles}

abbrev pub set_cal_page_handlers : Handlers
set_cal_page_handlers =
    handles err_timeout (many (PreAction.synch ∷ [])) (one Action.repeat_2_times)
    ∷ handles err_cmd_busy (one PreAction.wait_t7) (one Action.repeat_inf_times)
    ∷ handles err_pgm_active (one PreAction.wait_t7) (one Action.repeat_inf_times)
    ∷ handles err_cmd_syntax (one PreAction.none) (one Action.retry_syntax)
    ∷ handles err_access_locked (one PreAction.unlock_slave) (one Action.repeat_2_times)
    ∷ handles err_page_not_valid (one PreAction.none) (one Action.retry_param)
    ∷ handles err_mode_not_valid (one PreAction.none) (one Action.retry_param)
    ∷ handles err_segment_not_valid (one PreAction.none) (one Action.retry_param)
    ∷ handles err_resource_temporary_not_accessible (one PreAction.display_error)
        (one Action.repeat)
    ∷ []

abbrev pub get_cal_page_handlers : Handlers
get_cal_page_handlers =
    handles err_timeout (many (PreAction.synch ∷ [])) (one Action.repeat_2_times)
    ∷ handles err_cmd_busy (one PreAction.wait_t7) (one Action.repeat_inf_times)
    ∷ handles err_pgm_active (one PreAction.wait_t7) (one Action.repeat_inf_times)
    ∷ handles err_cmd_syntax (one PreAction.none) (one Action.retry_syntax)
    ∷ handles err_access_locked (one PreAction.unlock_slave) (one Action.repeat_2_times)
    ∷ handles err_page_not_valid (one PreAction.none) (one Action.retry_param)
    ∷ handles err_mode_not_valid (one PreAction.none) (one Action.retry_param)
    ∷ handles err_segment_not_valid (one PreAction.none) (one Action.retry_param)
    ∷ handles err_resource_temporary_not_accessible (one PreAction.display_error)
        (one Action.repeat)
    ∷ []

abbrev pub get_pag_processor_info_handlers : Handlers
get_pag_processor_info_handlers =
    handles err_timeout (many (PreAction.synch ∷ [])) (one Action.repeat_2_times)
    ∷ handles err_cmd_busy (one PreAction.wait_t7) (one Action.repeat_inf_times)
    ∷ handles err_pgm_active (one PreAction.wait_t7) (one Action.repeat_inf_times)
    ∷ handles err_cmd_unknown (one PreAction.none) (one Action.use_a2l)
    ∷ handles err_cmd_syntax (one PreAction.none) (one Action.retry_syntax)
    ∷ handles err_access_locked (one PreAction.unlock_slave) (one Action.repeat_2_times)
    ∷ handles err_resource_temporary_not_accessible (one PreAction.none) (one Action.skip)
    ∷ []

abbrev pub get_segment_info_handlers : Handlers
get_segment_info_handlers =
    handles err_timeout (many (PreAction.synch ∷ [])) (one Action.repeat_2_times)
    ∷ handles err_cmd_busy (one PreAction.wait_t7) (one Action.repeat_inf_times)
    ∷ handles err_pgm_active (one PreAction.wait_t7) (one Action.repeat_inf_times)
    ∷ handles err_cmd_unknown (one PreAction.none) (one Action.use_a2l)
    ∷ handles err_cmd_syntax (one PreAction.none) (one Action.retry_syntax)
    ∷ handles err_out_of_range (one PreAction.none) (one Action.retry_param)
    ∷ handles err_access_locked (one PreAction.unlock_slave) (one Action.repeat_2_times)
    ∷ handles err_segment_not_valid (one PreAction.none) (one Action.retry_param)
    ∷ handles err_resource_temporary_not_accessible (one PreAction.none) (one Action.skip)
    ∷ []

abbrev pub get_page_info_handlers : Handlers
get_page_info_handlers =
    handles err_timeout (many (PreAction.synch ∷ [])) (one Action.repeat_2_times)
    ∷ handles err_cmd_busy (one PreAction.wait_t7) (one Action.repeat_inf_times)
    ∷ handles err_pgm_active (one PreAction.wait_t7) (one Action.repeat_inf_times)
    ∷ handles err_cmd_unknown (one PreAction.none) (one Action.use_a2l)
    ∷ handles err_cmd_syntax (one PreAction.none) (one Action.retry_syntax)
    ∷ handles err_access_locked (one PreAction.unlock_slave) (one Action.repeat_2_times)
    ∷ handles err_page_not_valid (one PreAction.none) (one Action.retry_param)
    ∷ handles err_segment_not_valid (one PreAction.none) (one Action.retry_param)
    ∷ handles err_resource_temporary_not_accessible (one PreAction.none) (one Action.skip)
    ∷ []

abbrev pub set_segment_mode_handlers : Handlers
set_segment_mode_handlers =
    handles err_timeout (many (PreAction.synch ∷ [])) (one Action.repeat_2_times)
    ∷ handles err_cmd_busy (one PreAction.wait_t7) (one Action.repeat_inf_times)
    ∷ handles err_pgm_active (one PreAction.wait_t7) (one Action.repeat_inf_times)
    ∷ handles err_cmd_unknown (one PreAction.none) (one Action.display_error)
    ∷ handles err_cmd_syntax (one PreAction.none) (one Action.retry_syntax)
    ∷ handles err_access_locked (one PreAction.unlock_slave) (one Action.repeat_2_times)
    ∷ handles err_mode_not_valid (one PreAction.none) (one Action.retry_param)
    ∷ handles err_segment_not_valid (one PreAction.none) (one Action.retry_param)
    ∷ handles err_resource_temporary_not_accessible (one PreAction.display_error)
        (one Action.repeat)
    ∷ []

abbrev pub get_segment_mode_handlers : Handlers
get_segment_mode_handlers =
    handles err_timeout (many (PreAction.synch ∷ [])) (one Action.repeat_2_times)
    ∷ handles err_cmd_busy (one PreAction.wait_t7) (one Action.repeat_inf_times)
    ∷ handles err_pgm_active (one PreAction.wait_t7) (one Action.repeat_inf_times)
    ∷ handles err_cmd_unknown (one PreAction.none) (one Action.display_error)
    ∷ handles err_cmd_syntax (one PreAction.none) (one Action.retry_syntax)
    ∷ handles err_access_locked (one PreAction.unlock_slave) (one Action.repeat_2_times)
    ∷ handles err_segment_not_valid (one PreAction.none) (one Action.retry_param)
    ∷ handles err_resource_temporary_not_accessible (one PreAction.display_error)
        (one Action.repeat)
    ∷ []

abbrev pub copy_cal_page_handlers : Handlers
copy_cal_page_handlers =
    handles err_timeout (many (PreAction.synch ∷ [])) (one Action.repeat_2_times)
    ∷ handles err_cmd_busy (one PreAction.wait_t7) (one Action.repeat_inf_times)
    ∷ handles err_pgm_active (one PreAction.wait_t7) (one Action.repeat_inf_times)
    ∷ handles err_cmd_unknown (one PreAction.none) (one Action.display_error)
    ∷ handles err_cmd_syntax (one PreAction.none) (one Action.retry_syntax)
    ∷ handles err_access_locked (one PreAction.unlock_slave) (one Action.repeat_2_times)
    ∷ handles err_page_not_valid (one PreAction.none) (one Action.retry_param)
    ∷ handles err_segment_not_valid (one PreAction.none) (one Action.retry_param)
    ∷ handles err_resource_temporary_not_accessible (one PreAction.display_error)
        (one Action.repeat)
    ∷ []
