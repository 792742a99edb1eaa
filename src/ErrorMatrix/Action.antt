-- ===== src/ErrorMatrix/Action.antt =====
-- Pre-actions, actions and the rows of the error matrix (pyxcp/errormatrix.py: PreAction, Action;
-- pyxcp/master/errorhandler.py: actionIter).
use pyxcp.Prelude.{List, [], ◌∷◌}
use pyxcp.Types.XcpError.{XcpError}

pub data PreAction : Type 0 where
  none wait_t7 synch get_seed_unlock set_mta set_daq_ptr start_stop_x reinit_daq display_error
        download program upload unlock_slave :
      PreAction

pub data Action : Type 0 where
  none display_error retry_syntax retry_param use_a2l use_alterative repeat repeat_2_times
        repeat_inf_times restart_session terminate_session skip new_flash_ware :
      Action

-- A cell of the matrix holds one item, or a tuple of items.
pub data OneOrMany (A : Type 0) : Type 0 where
  one : A → OneOrMany A
  many : List A → OneOrMany A

-- `actionIter`.
unfoldable pub action_iter : {A : Type 0} → OneOrMany A → List A
action_iter (one a) = a ∷ []
action_iter (many items) = items

-- An entry of the inner dictionaries: error code, pre-actions and actions.
pub record Entry : Type 0 where
  pub error : XcpError
  pub pre_actions : OneOrMany PreAction
  pub actions : OneOrMany Action

abbrev pub Handlers : Type 0
Handlers = List Entry

abbrev pub handles : XcpError → OneOrMany PreAction → OneOrMany Action → Entry
handles e p a = record { error = e; pre_actions = p; actions = a }
