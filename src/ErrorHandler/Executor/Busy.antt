-- ===== src/ErrorHandler/Executor/Busy.antt =====
-- A slave that stays busy (pyxcp/master/errorhandler.py: Executor.__call__).
use pyxcp.Prelude.{ℕ, zero, suc, ◌≡◌, refl, none, inl}
use pyxcp.Types.XcpError.{err_cmd_busy}
use pyxcp.ErrorMatrix.Action.{Entry}
use pyxcp.ErrorHandler.Results.{ok}
use pyxcp.ErrorHandler.Repeater.{Repeater, infinite}
use pyxcp.ErrorHandler.Recovery.{Function, get_actions}
use pyxcp.ErrorHandler.Facts.{actions-endless}
use pyxcp.ErrorHandler.Executor.{Instance, negative, recovery, call}
use pyxcp.ErrorHandler.Executor.Retries.{Fails, call-infinite}

abbrev endless : Repeater
endless = record { counter = infinite; initial_value = infinite; max_retries = none }

module _ {W A : Type 0} (inst : Instance W A) (f : Function) where
  -- So many executions lead from `u` to `w`, each answered with ERR_CMD_BUSY, which the service
  -- lists.
  abbrev pub IsBusy : ℕ → W → W → Type 0
  IsBusy zero u w = u ≡ w
  IsBusy (suc n) u w =
      (v : W) × (h : Entry) × (inst.execute f u ≡ (negative err_cmd_busy, v))
      × (get_actions (inst.service v) err_cmd_busy ≡ ok h)
      × IsBusy n v w

  IsBusy-Fails :
      (n : ℕ) (u w : W)
      → inst.config.general ≡ none
      → IsBusy n u w
      → Fails inst f err_cmd_busy endless n u w
  unfolding recovery
  IsBusy-Fails zero u w g p = p
  IsBusy-Fails (suc n) u w g (v, h, x, e, p) = (
    negative err_cmd_busy,
    v,
    x,
    inl refl,
    rw e (actions-endless (inst.service v) inst.config (inst.mta v) h g e),
    IsBusy-Fails n v w g p,
  )

  -- Without a configured number of general retries, while the slave answers each execution with
  -- ERR_CMD_BUSY and the service lists that error, the call stays in its loop for any number of
  -- rounds.
  pub call-busy :
      (rounds : ℕ) (u w : W)
      → inst.config.general ≡ none
      → IsBusy rounds u w
      → call inst rounds f u ≡ none
  unfolding pyxcp.Types.XcpError.same
  call-busy rounds u w g p =
      call-infinite inst f err_cmd_busy endless refl rounds u w refl (IsBusy-Fails rounds u w g p)
