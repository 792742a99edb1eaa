-- ===== src/ErrorHandler/Facts.antt =====
-- What the error handler makes of the rows of the matrix, for all services.
use pyxcp.Prelude.{◌≡◌, ◌≢◌, none, List, [], arith}
use pyxcp.Types.Command.{Command}
use pyxcp.Types.XcpError.{XcpError, err_cmd_busy, err_access_locked}
use pyxcp.ErrorMatrix.Action.{PreAction, Action, Entry}
use pyxcp.ErrorHandler.Results.{type_error, not_implemented, ok, err}
use pyxcp.ErrorHandler.Repeater.{infinite}
use pyxcp.ErrorHandler.Arguments.{Value}
use pyxcp.ErrorHandler.Recovery.{
  Config, get_timeout_handler, get_actions, unpack, error_entry, actions,
}

timeout-covered : (c : Command) → get_timeout_handler c ≢ ok none
unfolding get_timeout_handler
timeout-covered Command.connect = ground arith
timeout-covered _ = ground arith

-- Looking up the actions for an error never unpacks `None`, for any service and any error: every
-- service of the matrix has a row for the timeout.
get_actions-ne-type_error : (c : Command) (e : XcpError) → get_actions c e ≢ err type_error
unfolding get_actions unpack error_entry
get_actions-ne-type_error c e = ground (arith, timeout-covered c)

pub actions-endless :
    (c : Command) (config : Config) (mta : List Value) (h : Entry)
    → config.general ≡ none
    → get_actions c err_cmd_busy ≡ ok h
    → actions config mta err_cmd_busy h.pre_actions h.actions
      ≡ ok ([], record { counter = infinite; initial_value = infinite; max_retries = none })
unfolding get_actions actions
actions-endless Command.connect config mta h k p = ground arith
actions-endless _ config mta h k p = ground arith

-- A locked resource is never unlocked automatically: for every service but UNLOCK itself that
-- lists ERR_ACCESS_LOCKED the handler raises `NotImplementedError`, whatever is configured.
pub actions-locked :
    (c : Command) (config : Config) (mta : List Value) (h : Entry)
    → c ≢ Command.unlock
    → get_actions c err_access_locked ≡ ok h
    → actions config mta err_access_locked h.pre_actions h.actions
      ≡ err (not_implemented PreAction.unlock_slave)
unfolding get_actions actions
actions-locked Command.connect config mta h k p = ground arith
actions-locked _ config mta h k p = ground arith
