-- ===== src/ErrorMatrix/Cal.antt =====
-- Rows of ERROR_MATRIX in pyxcp/errormatrix.py: the calibration commands.
use pyxcp.Prelude.{[], ◌∷◌}
use pyxcp.Types.XcpError.{
  err_access_denied, err_access_locked, err_cmd_busy, err_cmd_syntax, err_cmd_unknown,
  err_memory_overflow, err_out_of_range, err_pgm_active, err_resource_temporary_not_accessible,
  err_sequence, err_timeout, err_write_protected,
}
use pyxcp.ErrorMatrix.Action.{PreAction, Action, one, many, Handlers, handles}

abbrev pub download_handlers : Handlers
download_handlers =
    handles err_timeout (many (PreAction.synch ∷ PreAction.set_mta ∷ []))
      (one Action.repeat_2_times)
    ∷ handles err_cmd_busy (one PreAction.wait_t7) (one Action.repeat_inf_times)
    ∷ handles err_pgm_active (one PreAction.wait_t7) (one Action.repeat_inf_times)
    ∷ handles err_cmd_syntax (one PreAction.none) (one Action.retry_syntax)
    ∷ handles err_out_of_range (one PreAction.none) (one Action.retry_param)
    ∷ handles err_access_denied (one PreAction.none) (one Action.display_error)
    ∷ handles err_access_locked (one PreAction.unlock_slave) (one Action.repeat_2_times)
    ∷ handles err_write_protected (one PreAction.none) (one Action.display_error)
    ∷ handles err_memory_overflow (one PreAction.none) (one Action.display_error)
    ∷ handles err_resource_temporary_not_accessible (one PreAction.display_error)
        (one Action.repeat)
    ∷ []

abbrev pub download_next_handlers : Handlers
download_next_handlers =
    handles err_timeout (many (PreAction.synch ∷ PreAction.download ∷ []))
      (one Action.repeat_2_times)
    ∷ handles err_cmd_busy (one PreAction.wait_t7) (one Action.repeat_inf_times)
    ∷ handles err_pgm_active (one PreAction.wait_t7) (one Action.repeat_inf_times)
    ∷ handles err_cmd_unknown (one PreAction.set_mta) (one Action.use_alterative)
    ∷ handles err_cmd_syntax (one PreAction.none) (one Action.retry_syntax)
    ∷ handles err_out_of_range (one PreAction.none) (one Action.retry_param)
    ∷ handles err_access_denied (one PreAction.none) (one Action.display_error)
    ∷ handles err_access_locked (one PreAction.unlock_slave) (one Action.repeat_2_times)
    ∷ handles err_write_protected (one PreAction.none) (one Action.display_error)
    ∷ handles err_memory_overflow (one PreAction.none) (one Action.display_error)
    ∷ handles err_sequence (one PreAction.set_mta) (one Action.repeat_2_times)
    ∷ handles err_resource_temporary_not_accessible (one PreAction.display_error)
        (one Action.repeat)
    ∷ []

abbrev pub download_max_handlers : Handlers
download_max_handlers =
    handles err_timeout (many (PreAction.synch ∷ PreAction.set_mta ∷ []))
      (one Action.repeat_2_times)
    ∷ handles err_cmd_busy (one PreAction.wait_t7) (one Action.repeat_inf_times)
    ∷ handles err_pgm_active (one PreAction.wait_t7) (one Action.repeat_inf_times)
    ∷ handles err_cmd_unknown (one PreAction.set_mta) (one Action.use_alterative)
    ∷ handles err_cmd_syntax (one PreAction.none) (one Action.retry_syntax)
    ∷ handles err_out_of_range (one PreAction.none) (one Action.retry_param)
    ∷ handles err_access_denied (one PreAction.none) (one Action.display_error)
    ∷ handles err_access_locked (one PreAction.unlock_slave) (one Action.repeat_2_times)
    ∷ handles err_write_protected (one PreAction.none) (one Action.display_error)
    ∷ handles err_memory_overflow (one PreAction.none) (one Action.display_error)
    ∷ handles err_resource_temporary_not_accessible (one PreAction.display_error)
        (one Action.repeat)
    ∷ []

abbrev pub short_download_handlers : Handlers
short_download_handlers =
    handles err_timeout (many (PreAction.synch ∷ [])) (one Action.repeat_2_times)
    ∷ handles err_cmd_busy (one PreAction.wait_t7) (one Action.repeat_inf_times)
    ∷ handles err_pgm_active (one PreAction.wait_t7) (one Action.repeat_inf_times)
    ∷ handles err_cmd_unknown (one PreAction.none) (one Action.use_alterative)
    ∷ handles err_cmd_syntax (one PreAction.none) (one Action.retry_syntax)
    ∷ handles err_out_of_range (one PreAction.none) (one Action.retry_param)
    ∷ handles err_access_denied (one PreAction.none) (one Action.display_error)
    ∷ handles err_access_locked (one PreAction.unlock_slave) (one Action.repeat_2_times)
    ∷ handles err_write_protected (one PreAction.none) (one Action.display_error)
    ∷ handles err_memory_overflow (one PreAction.none) (one Action.display_error)
    ∷ handles err_resource_temporary_not_accessible (one PreAction.display_error)
        (one Action.repeat)
    ∷ []

abbrev pub modify_bits_handlers : Handlers
modify_bits_handlers =
    handles err_timeout (many (PreAction.synch ∷ PreAction.set_mta ∷ []))
      (one Action.repeat_2_times)
    ∷ handles err_cmd_busy (one PreAction.wait_t7) (one Action.repeat_inf_times)
    ∷ handles err_pgm_active (one PreAction.wait_t7) (one Action.repeat_inf_times)
    ∷ handles err_cmd_unknown (many (PreAction.upload ∷ PreAction.download ∷ []))
        (one Action.use_alterative)
    ∷ handles err_cmd_syntax (one PreAction.none) (one Action.retry_syntax)
    ∷ handles err_out_of_range (one PreAction.none) (one Action.retry_param)
    ∷ handles err_access_denied (one PreAction.none) (one Action.display_error)
    ∷ handles err_access_locked (one PreAction.unlock_slave) (one Action.repeat_2_times)
    ∷ handles err_write_protected (one PreAction.none) (one Action.display_error)
    ∷ handles err_memory_overflow (one PreAction.none) (one Action.display_error)
    ∷ handles err_resource_temporary_not_accessible (one PreAction.display_error)
        (one Action.repeat)
    ∷ []
