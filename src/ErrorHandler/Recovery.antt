-- ===== src/ErrorHandler/Recovery.antt =====
-- What is done about an error: the row of the matrix is looked up, and its pre-actions and
-- actions become calls and a repeater (pyxcp/master/errorhandler.py: getErrorHandler,
-- getTimeoutHandler, getActions, Handler.actions).
use pyxcp.Prelude.{ℕ, Option, none, some, List, [], ◌∷◌, ◌++◌, String, if◌then◌else◌}
use pyxcp.Types.Command.{Command}
use pyxcp.Types.XcpError.{XcpError, err_timeout, same}
use pyxcp.ErrorMatrix.{error_matrix}
use pyxcp.ErrorMatrix.Action.{PreAction, Action, OneOrMany, action_iter, Entry, Handlers}
use pyxcp.ErrorHandler.Results.{
  Failure, system_exit, internal_error, type_error, not_implemented, Result, ok, err, ◌>>=◌,
}
use pyxcp.ErrorHandler.Repeater.{
  Count, infinite, times, repeat_once, repeat_2_times, Repeater, new_repeater,
}
use pyxcp.ErrorHandler.Arguments.{Value, Arguments, no_arguments}

-- `handler.get(error)` on a row of the matrix.
unfoldable pub get_entry : Handlers → XcpError → Option Entry
unfolding same
get_entry [] e = none
get_entry (h ∷ hs) e = if same h.error e then some h else get_entry hs e

-- `getTimeoutHandler`
unfoldable pub get_timeout_handler : Command → Result (Option Entry)
unfolding error_matrix get_entry
get_timeout_handler service = elim (error_matrix service) [
  | none ↦ err internal_error
  | some row ↦ ok (get_entry row err_timeout)
]

unfoldable pub unpack : Failure → Option Entry → Result Entry
unpack f none = err f
unpack f (some h) = ok h

unfoldable pub error_entry : Command → XcpError → Result Entry
error_entry service e = elim (error_matrix service) [
  | none ↦ err internal_error
  | some row ↦ unpack (system_exit e) (get_entry row e)
]

-- `getActions`
unfoldable pub get_actions : Command → XcpError → Result Entry
unfolding error_matrix get_entry get_timeout_handler unpack error_entry same
get_actions service e =
    if same e err_timeout
    then (do found ← get_timeout_handler service; unpack type_error found)
    else error_entry service e

-- `Function`: a bound method, by its name, with its arguments.
pub record Function : Type 0 where
  pub fun : String
  pub arguments : Arguments

abbrev synch_call : Function
synch_call = record { fun = "synch"; arguments = no_arguments }

abbrev free_daq_call : Function
free_daq_call = record { fun = "freeDaq"; arguments = no_arguments }

-- `Function(self.instance.setMta, Arguments(self.instance.mta))`
abbrev set_mta_call : List Value → Function
set_mta_call mta = record { fun = "setMta"; arguments = record { args = mta; kwargs = [] } }

-- What one pre-action appends to the calls; the call made for SET_DAQ_PTR is not appended.
unfoldable pub pre_action : List Value → PreAction → Result (List Function)
pre_action mta PreAction.none = ok []
pre_action mta PreAction.wait_t7 = ok []
pre_action mta PreAction.synch = ok (synch_call ∷ [])
pre_action mta PreAction.get_seed_unlock = err (not_implemented PreAction.get_seed_unlock)
pre_action mta PreAction.set_mta = ok (set_mta_call mta ∷ [])
pre_action mta PreAction.set_daq_ptr = ok []
pre_action mta PreAction.start_stop_x = err (not_implemented PreAction.start_stop_x)
pre_action mta PreAction.reinit_daq = ok (free_daq_call ∷ [])
pre_action mta PreAction.display_error = ok []
pre_action mta PreAction.download = err (not_implemented PreAction.download)
pre_action mta PreAction.program = err (not_implemented PreAction.program)
pre_action mta PreAction.upload = err (not_implemented PreAction.upload)
pre_action mta PreAction.unlock_slave = err (not_implemented PreAction.unlock_slave)

-- The loop over the pre-actions.
unfoldable pub pre_actions : List Value → List PreAction → Result (List Function)
unfolding pre_action
pre_actions mta [] = ok []
pre_actions mta (p ∷ ps) =
    let rest = pre_actions mta ps in do calls ← pre_action mta p; more ← rest; ok (calls ++ more)

-- What one action makes of the repetition count.
unfoldable pub action : XcpError → Action → Count → Result Count
action e Action.none n = ok n
action e Action.display_error n = err (system_exit e)
action e Action.retry_syntax n = err (system_exit e)
action e Action.retry_param n = err (system_exit e)
action e Action.use_a2l n = err (system_exit e)
action e Action.use_alterative n = err (system_exit e)
action e Action.repeat n = ok repeat_once
action e Action.repeat_2_times n = ok repeat_2_times
action e Action.repeat_inf_times n = ok infinite
action e Action.restart_session n = err (system_exit e)
action e Action.terminate_session n = err (system_exit e)
action e Action.skip n = ok n
action e Action.new_flash_ware n = err (system_exit e)

-- The loop over the actions.
unfoldable pub repetition_count : XcpError → List Action → Count → Result Count
unfolding action
repetition_count e [] n = ok n
repetition_count e (a ∷ as') n = do m ← action e a n; repetition_count e as' m

-- pyxcp/config: General, and what `instance.config` has. `general` is the attribute of that
-- name, which is read with a default of `None`.
pub record General : Type 0 where
  pub connect_retries : Option ℕ
  pub max_retries : Option Count

pub record Config : Type 0 where
  pub connect_retries : Option ℕ
  pub general : Option General

-- `Master.__init__`: the master keeps the section `general` of the application's configuration,
-- and that section has no attribute `general`.
unfoldable pub master_config : General → Config
master_config g = record { connect_retries = g.connect_retries; general = none }

-- The `max_retries` that `Handler.actions` reads.
configured_max_retries : Config → Option Count
configured_max_retries c = elim c.general [ none ↦ none | some g ↦ g.max_retries ]

-- `Handler.actions`
unfoldable pub actions :
    Config
    → List Value
    → XcpError
    → OneOrMany PreAction
    → OneOrMany Action
    → Result (List Function × Repeater)
unfolding action_iter pre_actions repetition_count configured_max_retries new_repeater
actions config mta e ps acts = do
  calls ← pre_actions mta (action_iter ps)
  n ← repetition_count e (action_iter acts) (times 0)
  ok (calls, new_repeater n (configured_max_retries config))
