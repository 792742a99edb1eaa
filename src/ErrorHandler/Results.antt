-- ===== src/ErrorHandler/Results.antt =====
-- The exceptions that leave the error handler, and results that may be one of them
-- (pyxcp/master/errorhandler.py: InternalError, SystemExit, UnrecoverableError).
use pyxcp.Prelude.{ℕ}
use pyxcp.Types.XcpError.{XcpError}
use pyxcp.ErrorMatrix.Action.{PreAction}

pub data Failure : Type 0 where
  -- `SystemExit` with the error code that it carries
  system_exit : XcpError → Failure
  -- `InternalError`: the service is not in the matrix
  internal_error : Failure
  -- a row with no timeout entry: `None` is unpacked
  type_error : Failure
  -- `NotImplementedError` of a pre-action
  not_implemented : PreAction → Failure
  unrecoverable : Failure
  -- `XcpTimeoutError`: the retries of CONNECT are used up
  connect_retries_exceeded : Failure
  -- an exception of the called method that the executor raises again
  foreign : ℕ → Failure
  -- `None.execute()`
  empty_stack : Failure

pub data Result {ℓ} (A : Type ℓ) : Type ℓ where
  ok : A → Result A
  err : Failure → Result A

infixl 5 ◌>>=◌
abbrev pub ◌>>=◌ {ℓ κ} : {A : Type ℓ} {B : Type κ} → Result A → (A → Result B) → Result B
ok a >>= f = f a
err e >>= f = err e
