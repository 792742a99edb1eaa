-- ===== src/ErrorMatrix/Daq2.antt =====
-- Rows of ERROR_MATRIX in pyxcp/errormatrix.py: the data acquisition commands.
use pyxcp.Prelude.{[], ◌∷◌}
use pyxcp.Types.XcpError.{
  err_access_locked, err_cmd_busy, err_cmd_syntax, err_cmd_unknown, err_memory_overflow,
  err_out_of_range, err_pgm_active, err_resource_temporary_not_accessible, err_sequence,
  err_timeout,
}
use pyxcp.ErrorMatrix.Action.{PreAction, Action, one, many, Handlers, handles}

abbrev pub free_daq_handlers : Handlers
free_daq_handlers =
    handles err_timeout (many (PreAction.synch ∷ [])) (one Action.repeat_2_times)
    ∷ handles err_cmd_busy (one PreAction.wait_t7) (one Action.repeat_inf_times)
    ∷ handles err_pgm_active (one PreAction.wait_t7) (one Action.repeat_inf_times)
    ∷ handles err_cmd_unknown (one PreAction.none) (one Action.display_error)
    ∷ handles err_cmd_syntax (one PreAction.none) (one Action.retry_syntax)
    ∷ handles err_access_locked (one PreAction.unlock_slave) (one Action.repeat_2_times)
    ∷ handles err_resource_temporary_not_accessible (one PreAction.display_error)
        (one Action.repeat)
    ∷ []

abbrev pub alloc_daq_handlers : Handlers
alloc_daq_handlers =
    handles err_timeout (many (PreAction.synch ∷ [])) (one Action.repeat_2_times)
    ∷ handles err_cmd_busy (one PreAction.wait_t7) (one Action.repeat_inf_times)
    ∷ handles err_pgm_active (one PreAction.wait_t7) (one Action.repeat_inf_times)
    ∷ handles err_cmd_unknown (one PreAction.none) (one Action.display_error)
    ∷ handles err_cmd_syntax (one PreAction.none) (one Action.retry_syntax)
    ∷ handles err_out_of_range (one PreAction.none) (one Action.retry_param)
    ∷ handles err_access_locked (one PreAction.unlock_slave) (one Action.repeat_2_times)
    ∷ handles err_sequence (one PreAction.reinit_daq) (one Action.repeat_2_times)
    ∷ handles err_memory_overflow (one PreAction.reinit_daq) (one Action.retry_param)
    ∷ handles err_resource_temporary_not_accessible (one PreAction.display_error)
        (one Action.repeat)
    ∷ []

abbrev pub alloc_odt_handlers : Handlers
alloc_odt_handlers =
    handles err_timeout (many (PreAction.synch ∷ [])) (one Action.repeat_2_times)
    ∷ handles err_cmd_busy (one PreAction.wait_t7) (one Action.repeat_inf_times)
    ∷ handles err_pgm_active (one PreAction.wait_t7) (one Action.repeat_inf_times)
    ∷ handles err_cmd_unknown (one PreAction.none) (one Action.display_error)
    ∷ handles err_cmd_syntax (one PreAction.none) (one Action.retry_syntax)
    ∷ handles err_out_of_range (one PreAction.none) (one Action.retry_param)
    ∷ handles err_access_locked (one PreAction.unlock_slave) (one Action.repeat_2_times)
    ∷ handles err_sequence (one PreAction.reinit_daq) (one Action.repeat_2_times)
    ∷ handles err_memory_overflow (one PreAction.reinit_daq) (one Action.retry_param)
    ∷ handles err_resource_temporary_not_accessible (one PreAction.display_error)
        (one Action.repeat)
    ∷ []

abbrev pub alloc_odt_entry_handlers : Handlers
alloc_odt_entry_handlers =
    handles err_timeout (many (PreAction.synch ∷ [])) (one Action.repeat_2_times)
    ∷ handles err_cmd_busy (one PreAction.wait_t7) (one Action.repeat_inf_times)
    ∷ handles err_pgm_active (one PreAction.wait_t7) (one Action.repeat_inf_times)
    ∷ handles err_cmd_unknown (one PreAction.none) (one Action.display_error)
    ∷ handles err_cmd_syntax (one PreAction.none) (one Action.retry_syntax)
    ∷ handles err_out_of_range (one PreAction.none) (one Action.retry_param)
    ∷ handles err_access_locked (one PreAction.unlock_slave) (one Action.repeat_2_times)
    ∷ handles err_sequence (one PreAction.reinit_daq) (one Action.repeat_2_times)
    ∷ handles err_memory_overflow (one PreAction.reinit_daq) (one Action.retry_param)
    ∷ handles err_resource_temporary_not_accessible (one PreAction.display_error)
        (one Action.repeat)
    ∷ []
