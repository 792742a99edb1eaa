-- ===== src/ErrorHandler/Executor/Connect.antt =====
-- CONNECT against a slave that does not answer.
use pyxcp.Prelude.{ℕ, zero, suc, ◌<◌, ◌≡◌, refl, true, none, some, [], ◌∷◌, arith}
use text.Mathlib.Text.{◌==◌ as str_eq}
use pyxcp.Types.Command.{Command}
use pyxcp.Types.XcpError.{err_timeout, same}
use pyxcp.ErrorHandler.Results.{connect_retries_exceeded, ok, err}
use pyxcp.ErrorHandler.Repeater.{infinite, Repeater, repeat-infinite}
use pyxcp.ErrorHandler.Recovery.{Function, General, master_config, get_actions, actions}
use pyxcp.ErrorHandler.Executor.{
  timeout, Instance, Handler, new_handler, push, push_all, again, first_repeater, recovery,
  after_recovery, after_error, connect_timeout, after_timeout, after_execute, round, resume, run,
  call,
}

-- `n` executions of `f` lead from `u` to `w`, and all time out in the service CONNECT.
abbrev pub Silent : {W A : Type 0} → Instance W A → Function → ℕ → W → W → Type 0
Silent inst f zero u w = u ≡ w
Silent {W} {A} inst f (suc n) u w =
    (v : W) × (inst.execute f u ≡ (timeout, v))
    × (inst.service v ≡ Command.connect)
    × Silent inst f n v w

-- The row of the matrix asks for repetition without end, whatever the configuration says.
abbrev forever : Repeater
forever = record { counter = infinite; initial_value = infinite; max_retries = none }

module _ {W A : Type 0} (inst : Instance W A) (f : Function) (g : General)
    (configured : inst.config ≡ master_config g) (is_connect : str_eq f.fun "connect" ≡ true) where
  recovery-connect :
      (v : W) → inst.service v ≡ Command.connect → recovery inst err_timeout v ≡ ok ([], forever)
  unfolding recovery get_actions actions master_config
  recovery-connect v p = rw (p, configured)

  connect_timeout-suc :
      (h : Handler) (k : ℕ) (v : W)
      → inst.service v ≡ Command.connect
      → (first_repeater h.repeater forever).counter ≡ infinite
      → connect_timeout inst h [] (some (suc k)) v
        ≡ again
            (record {
              stack =
                  record h {
                    error_code = some err_timeout;
                    repeater =
                        some (record (first_repeater h.repeater forever) { counter = infinite });
                  }
                  ∷ [];
              connect_retries = some k;
            })
            v
  unfolding connect_timeout after_error after_recovery push_all same
  connect_timeout-suc h k v p t =
      rw (
        recovery-connect v p,
        after_recovery,
        repeat-infinite (first_repeater h.repeater forever) t,
      )

  run-timeout :
      (fuel k : ℕ) (h : Handler) (u v : W)
      → h.call ≡ f
      → inst.execute f u ≡ (timeout, v)
      → run inst (suc fuel) f.fun (record { stack = h ∷ []; connect_retries = some k }) u
        ≡ resume (run inst fuel f.fun) (connect_timeout inst h [] (some k) v)
  unfolding run round after_execute after_timeout
  run-timeout fuel k h u v c x =
      let x' : inst.execute h.call u ≡ (timeout, v) = rw c x in rw (x', is_connect)

  run-connect :
      (k fuel : ℕ) (h : Handler) (u w : W)
      → h.call ≡ f
      → (first_repeater h.repeater forever).counter ≡ infinite
      → Silent inst f (suc k) u w
      → k < fuel
      → run inst fuel f.fun (record { stack = h ∷ []; connect_retries = some k }) u
        ≡ some (err connect_retries_exceeded, w)
  unfolding resume first_repeater
  run-connect k zero h u w c t s l = absurd (omega arith)
  run-connect zero (suc fuel) h u w c t (v, x, p, s) l =
      rw (run-timeout fuel zero h u v c x, s) (unfold connect_timeout in refl)
  run-connect (suc k) (suc fuel) h u w c t (v, x, p, s) l =
      rw (run-timeout fuel (suc k) h u v c x, connect_timeout-suc h k v p t)
        (run-connect k fuel
          (record h {
            error_code = some err_timeout;
            repeater = some (record (first_repeater h.repeater forever) { counter = infinite });
          })
          v w c refl s (omega arith))

  -- With `k` configured retries of CONNECT, a slave that never answers is tried exactly `k + 1`
  -- times, and then the call raises the timeout.
  pub call-connect :
      (k fuel : ℕ) (u w : W)
      → g.connect_retries ≡ some k
      → Silent inst f (suc k) u w
      → k < fuel
      → call inst fuel f u ≡ some (err connect_retries_exceeded, w)
  unfolding call push first_repeater master_config
  call-connect k fuel u w r s l =
      let retries : inst.config.connect_retries ≡ some k = rw (configured, r) in
      simp retries (run-connect k fuel (new_handler none f) u w refl refl s l)
