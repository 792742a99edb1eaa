-- ===== src/ErrorMatrix/Std.antt =====
-- Rows of ERROR_MATRIX in pyxcp/errormatrix.py: the standard commands.
use pyxcp.Prelude.{[], ◌∷◌}
use pyxcp.Types.XcpError.{
  err_access_denied, err_access_locked, err_cmd_busy, err_cmd_synch, err_cmd_syntax,
  err_cmd_unknown, err_out_of_range, err_pgm_active, err_resource_temporary_not_accessible,
  err_sequence, err_timeout,
}
use pyxcp.ErrorMatrix.Action.{PreAction, Action, one, many, Handlers, handles}

abbrev pub connect_handlers : Handlers
connect_handlers =
    handles err_timeout (many (PreAction.none ∷ [])) (one Action.repeat_inf_times)
    ∷ handles err_resource_temporary_not_accessible (one PreAction.display_error)
        (one Action.repeat)
    ∷ []

abbrev pub disconnect_handlers : Handlers
disconnect_handlers =
    handles err_timeout (many (PreAction.synch ∷ [])) (one Action.repeat_2_times)
    ∷ handles err_cmd_busy (one PreAction.wait_t7) (one Action.repeat_inf_times)
    ∷ handles err_pgm_active (one PreAction.wait_t7) (one Action.repeat_inf_times)
    ∷ []

abbrev pub get_status_handlers : Handlers
get_status_handlers =
    handles err_timeout (many (PreAction.synch ∷ [])) (one Action.repeat_2_times)
    ∷ handles err_resource_temporary_not_accessible (one PreAction.display_error)
        (one Action.repeat)
    ∷ []

abbrev pub synch_handlers : Handlers
synch_handlers =
    handles err_timeout (many (PreAction.none ∷ [])) (one Action.repeat_2_times)
    ∷ handles err_cmd_synch (one PreAction.none) (one Action.skip)
    ∷ handles err_cmd_unknown (one PreAction.none) (one Action.restart_session)
    ∷ handles err_resource_temporary_not_accessible (one PreAction.display_error)
        (one Action.repeat)
    ∷ []

abbrev pub get_comm_mode_info_handlers : Handlers
get_comm_mode_info_handlers =
    handles err_timeout (many (PreAction.synch ∷ [])) (one Action.repeat_2_times)
    ∷ handles err_cmd_busy (one PreAction.wait_t7) (one Action.repeat_inf_times)
    ∷ handles err_cmd_unknown (one PreAction.none) (one Action.display_error)
    ∷ handles err_cmd_syntax (one PreAction.none) (one Action.retry_syntax)
    ∷ handles err_resource_temporary_not_accessible (one PreAction.none) (one Action.skip)
    ∷ []

abbrev pub get_id_handlers : Handlers
get_id_handlers =
    handles err_timeout (many (PreAction.synch ∷ [])) (one Action.repeat_2_times)
    ∷ handles err_cmd_busy (one PreAction.wait_t7) (one Action.repeat_inf_times)
    ∷ handles err_cmd_unknown (one PreAction.none) (one Action.display_error)
    ∷ handles err_cmd_syntax (one PreAction.none) (one Action.retry_syntax)
    ∷ handles err_out_of_range (one PreAction.none) (one Action.retry_param)
    ∷ handles err_resource_temporary_not_accessible (one PreAction.none) (one Action.skip)
    ∷ []

abbrev pub set_request_handlers : Handlers
set_request_handlers =
    handles err_timeout (many (PreAction.synch ∷ [])) (one Action.repeat_2_times)
    ∷ handles err_cmd_busy (one PreAction.wait_t7) (one Action.repeat_inf_times)
    ∷ handles err_pgm_active (one PreAction.wait_t7) (one Action.repeat_inf_times)
    ∷ handles err_cmd_unknown (one PreAction.none) (one Action.display_error)
    ∷ handles err_cmd_syntax (one PreAction.none) (one Action.retry_syntax)
    ∷ handles err_out_of_range (one PreAction.none) (one Action.retry_param)
    ∷ handles err_resource_temporary_not_accessible (one PreAction.display_error)
        (one Action.repeat)
    ∷ []

abbrev pub get_seed_handlers : Handlers
get_seed_handlers =
    handles err_timeout (many (PreAction.synch ∷ [])) (one Action.repeat_2_times)
    ∷ handles err_cmd_busy (one PreAction.wait_t7) (one Action.repeat_inf_times)
    ∷ handles err_pgm_active (one PreAction.wait_t7) (one Action.repeat_inf_times)
    ∷ handles err_cmd_unknown (one PreAction.none) (one Action.display_error)
    ∷ handles err_cmd_syntax (one PreAction.none) (one Action.retry_syntax)
    ∷ handles err_out_of_range (one PreAction.none) (one Action.retry_param)
    ∷ handles err_resource_temporary_not_accessible (one PreAction.display_error)
        (one Action.repeat)
    ∷ []

abbrev pub unlock_handlers : Handlers
unlock_handlers =
    handles err_timeout (many (PreAction.synch ∷ [])) (one Action.repeat_2_times)
    ∷ handles err_cmd_busy (one PreAction.wait_t7) (one Action.repeat_inf_times)
    ∷ handles err_pgm_active (one PreAction.wait_t7) (one Action.repeat_inf_times)
    ∷ handles err_cmd_unknown (one PreAction.none) (one Action.display_error)
    ∷ handles err_cmd_syntax (one PreAction.none) (one Action.retry_syntax)
    ∷ handles err_out_of_range (one PreAction.none) (one Action.retry_param)
    ∷ handles err_access_locked (one PreAction.none) (one Action.restart_session)
    ∷ handles err_sequence (one PreAction.get_seed_unlock) (one Action.repeat_2_times)
    ∷ handles err_resource_temporary_not_accessible (one PreAction.display_error)
        (one Action.repeat)
    ∷ []

abbrev pub set_mta_handlers : Handlers
set_mta_handlers =
    handles err_timeout (many (PreAction.synch ∷ [])) (one Action.repeat_2_times)
    ∷ handles err_cmd_busy (one PreAction.wait_t7) (one Action.repeat_inf_times)
    ∷ handles err_pgm_active (one PreAction.wait_t7) (one Action.repeat_inf_times)
    ∷ handles err_cmd_unknown (one PreAction.none) (one Action.display_error)
    ∷ handles err_cmd_syntax (one PreAction.none) (one Action.retry_syntax)
    ∷ handles err_out_of_range (one PreAction.none) (one Action.retry_param)
    ∷ handles err_resource_temporary_not_accessible (one PreAction.display_error)
        (one Action.repeat)
    ∷ []

abbrev pub upload_handlers : Handlers
upload_handlers =
    handles err_timeout (many (PreAction.synch ∷ PreAction.set_mta ∷ []))
      (one Action.repeat_2_times)
    ∷ handles err_cmd_busy (one PreAction.wait_t7) (one Action.repeat_inf_times)
    ∷ handles err_pgm_active (one PreAction.wait_t7) (one Action.repeat_inf_times)
    ∷ handles err_cmd_unknown (one PreAction.none) (one Action.display_error)
    ∷ handles err_cmd_syntax (one PreAction.none) (one Action.retry_syntax)
    ∷ handles err_out_of_range (one PreAction.none) (one Action.retry_param)
    ∷ handles err_access_denied (one PreAction.none) (one Action.display_error)
    ∷ handles err_access_locked (one PreAction.unlock_slave) (one Action.repeat_2_times)
    ∷ handles err_resource_temporary_not_accessible (one PreAction.display_error)
        (one Action.repeat)
    ∷ []

abbrev pub short_upload_handlers : Handlers
short_upload_handlers =
    handles err_timeout (many (PreAction.synch ∷ [])) (one Action.repeat_2_times)
    ∷ handles err_cmd_busy (one PreAction.wait_t7) (one Action.repeat_inf_times)
    ∷ handles err_pgm_active (one PreAction.wait_t7) (one Action.repeat_inf_times)
    ∷ handles err_cmd_unknown (one PreAction.none) (one Action.use_alterative)
    ∷ handles err_cmd_syntax (one PreAction.none) (one Action.retry_syntax)
    ∷ handles err_out_of_range (one PreAction.none) (one Action.retry_param)
    ∷ handles err_access_denied (one PreAction.none) (one Action.display_error)
    ∷ handles err_access_locked (one PreAction.unlock_slave) (one Action.repeat_2_times)
    ∷ handles err_resource_temporary_not_accessible (one PreAction.display_error)
        (one Action.repeat)
    ∷ []

abbrev pub build_checksum_handlers : Handlers
build_checksum_handlers =
    handles err_timeout (many (PreAction.synch ∷ PreAction.set_mta ∷ []))
      (one Action.repeat_2_times)
    ∷ handles err_cmd_busy (one PreAction.wait_t7) (one Action.repeat_inf_times)
    ∷ handles err_pgm_active (one PreAction.wait_t7) (one Action.repeat_inf_times)
    ∷ handles err_cmd_unknown (one PreAction.none) (one Action.display_error)
    ∷ handles err_cmd_syntax (one PreAction.none) (one Action.retry_syntax)
    ∷ handles err_out_of_range (one PreAction.none) (one Action.retry_param)
    ∷ handles err_access_denied (one PreAction.none) (one Action.display_error)
    ∷ handles err_access_locked (one PreAction.unlock_slave) (one Action.repeat_2_times)
    ∷ handles err_resource_temporary_not_accessible (one PreAction.display_error)
        (one Action.repeat)
    ∷ []

abbrev pub transport_layer_cmd_handlers : Handlers
transport_layer_cmd_handlers =
    handles err_cmd_unknown (one PreAction.none) (one Action.display_error)
    ∷ handles err_timeout (many (PreAction.synch ∷ [])) (one Action.repeat_2_times)
    ∷ handles err_cmd_busy (one PreAction.wait_t7) (one Action.repeat_inf_times)
    ∷ handles err_pgm_active (one PreAction.wait_t7) (one Action.repeat_inf_times)
    ∷ handles err_cmd_syntax (one PreAction.none) (one Action.retry_syntax)
    ∷ handles err_out_of_range (one PreAction.none) (one Action.retry_param)
    ∷ handles err_resource_temporary_not_accessible (one PreAction.display_error)
        (one Action.repeat)
    ∷ []

abbrev pub user_cmd_handlers : Handlers
user_cmd_handlers =
    handles err_cmd_unknown (one PreAction.none) (one Action.display_error)
    ∷ handles err_timeout (many (PreAction.synch ∷ [])) (one Action.repeat_2_times)
    ∷ handles err_cmd_busy (one PreAction.wait_t7) (one Action.repeat_inf_times)
    ∷ handles err_pgm_active (one PreAction.wait_t7) (one Action.repeat_inf_times)
    ∷ handles err_cmd_syntax (one PreAction.none) (one Action.retry_syntax)
    ∷ handles err_out_of_range (one PreAction.none) (one Action.retry_param)
    ∷ handles err_resource_temporary_not_accessible (one PreAction.display_error)
        (one Action.repeat)
    ∷ []
