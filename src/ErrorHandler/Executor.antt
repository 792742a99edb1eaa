-- ===== src/ErrorHandler/Executor.antt =====
-- The executor: a service method is called, and called again, as the error matrix asks
-- (pyxcp/master/errorhandler.py: Handler, HandlerStack, Executor).
pub mod Provenance
pub mod Retries
pub mod Connect
pub mod Busy
use pyxcp.Prelude.{
  ℕ, zero, suc, Bool, ◌&&◌, Option, none, some, List, [], ◌∷◌, reverse, String, if◌then◌else◌,
}
use text.Mathlib.Text.{◌==◌ as str_eq}
use pyxcp.Types.Command.{Command}
use pyxcp.Types.XcpError.{XcpError, err_cmd_synch, err_timeout, same}
use pyxcp.ErrorHandler.Results.{
  unrecoverable, connect_retries_exceeded, foreign, empty_stack, Result, ok, err, ◌>>=◌,
}
use pyxcp.ErrorHandler.Repeater.{Repeater, repeat}
use pyxcp.ErrorHandler.Arguments.{Value, arguments_eq}
use pyxcp.ErrorHandler.Recovery.{Function, Config, get_actions, actions}

-- How a call of an undecorated service method ends.
pub data Outcome (A : Type 0) : Type 0 where
  returned : A → Outcome A
  -- `XcpResponseError`
  negative : XcpError → Outcome A
  -- `XcpTimeoutError`
  timeout : Outcome A
  -- any other exception
  raised : ℕ → Outcome A

-- The master that the methods belong to: its methods, run on the state `W` of master, transport
-- and slave, and the attributes that the error handler reads.
pub record Instance (W A : Type 0) : Type 0 where
  pub execute : Function → W → Outcome A × W
  pub service : W → Command
  pub mta : W → List Value
  pub config : Config

-- `Handler`; the error code is none until one is set.
pub record Handler : Type 0 where
  pub call : Function
  pub error_code : Option XcpError
  pub repeater : Option Repeater

abbrev pub new_handler : Option XcpError → Function → Handler
new_handler e f = record { call = f; error_code = e; repeater = none }

function_eq : Function → Function → Bool
unfolding arguments_eq
function_eq f g = str_eq f.fun g.fun && arguments_eq f.arguments g.arguments

-- `HandlerStack.push`, the top first: a handler that equals the top is not pushed again.
unfoldable pub push : Handler → List Handler → List Handler
unfolding function_eq
push h [] = h ∷ []
push h (t ∷ ts) = if function_eq h.call t.call then t ∷ ts else h ∷ t ∷ ts

-- `for f, a in reversed(preActions): push(...)`, on the calls in the order of the loop.
unfoldable pub push_all : XcpError → List Function → List Handler → List Handler
push_all e [] stack = stack
push_all e (f ∷ fs) stack = push_all e fs (push (new_handler (some e) f) stack)

-- The variables of `__call__` that outlive a round.
pub record Session : Type 0 where
  pub stack : List Handler
  pub connect_retries : Option ℕ

pub data Round (W A : Type 0) : Type 0 where
  again : Session → W → Round W A
  finished : Result A → W → Round W A

-- `continue`, or the way out of the loop.
unfoldable pub resume :
    {W A : Type 0} → (Session → W → Option (Result A × W)) → Round W A → Option (Result A × W)
resume next (again s w) = next s w
resume next (finished r w) = some (r, w)

-- `if handler.repeater is None: handler.repeater = repeater`
unfoldable pub first_repeater : Option Repeater → Repeater → Repeater
first_repeater none r = r
first_repeater (some old) r = old

module _ {W A : Type 0} (inst : Instance W A) where
  -- `handler.actions(*getActions(inst.service, self.error_code))`
  unfoldable pub recovery : XcpError → W → Result (List Function × Repeater)
  recovery e w = do
    entry ← get_actions (inst.service w) e
    actions inst.config (inst.mta w) e entry.pre_actions entry.actions

  -- The pre-actions are pushed, and the repeater decides. It is counted down first here: the
  -- pushes do not read it.
  unfoldable pub after_recovery :
      Handler
      → List Handler
      → Option ℕ
      → XcpError
      → W
      → Result (List Function × Repeater)
      → Round W A
  after_recovery h rest retries e w (err f) = finished (err f) w
  after_recovery h rest retries e w (ok (calls, r)) =
      let (more, r') = repeat (first_repeater h.repeater r) in
      let h' = record h { error_code = some e; repeater = some r' } in
      if more
      then again
          (record { stack = push_all e (reverse calls) (h' ∷ rest); connect_retries = retries }) w
      else finished (err unrecoverable) w

  -- The rest of a round in which the top handler failed with `e`.
  unfoldable pub after_error : Handler → List Handler → Option ℕ → XcpError → W → Round W A
  after_error h rest retries e w =
      if same e err_cmd_synch
      then again
          (record { stack = record h { error_code = some e } ∷ rest; connect_retries = retries }) w
      else after_recovery h rest retries e w (recovery e w)

  -- The rest of a round in which the top handler returned: it is popped, and its repeater is
  -- consulted all the same when other handlers wait.
  unfoldable pub after_success : Handler → List Handler → Option ℕ → A → W → Round W A
  after_success h [] retries a w = finished (ok a) w
  after_success h (t ∷ ts) retries a w = elim h.repeater [
    | none ↦ again (record { stack = t ∷ ts; connect_retries = retries }) w
    | some r ↦
        if (repeat r).0
        then again (record { stack = t ∷ ts; connect_retries = retries }) w
        else finished (err unrecoverable) w
  ]

  -- A timeout of CONNECT, with the retries that are left.
  unfoldable pub connect_timeout : Handler → List Handler → Option ℕ → W → Round W A
  connect_timeout h rest none w = after_error h rest none err_timeout w
  connect_timeout h rest (some zero) w = finished (err connect_retries_exceeded) w
  connect_timeout h rest (some (suc n)) w = after_error h rest (some n) err_timeout w

  -- The timeout branch; `func` is the method that was called.
  unfoldable pub after_timeout : String → Handler → List Handler → Option ℕ → W → Round W A
  after_timeout func h rest retries w =
      if str_eq func "connect"
      then connect_timeout h rest retries w
      else after_error h rest retries err_timeout w

  unfoldable pub after_execute :
      String → Handler → List Handler → Option ℕ → Outcome A → W → Round W A
  after_execute func h rest retries (returned a) w = after_success h rest retries a w
  after_execute func h rest retries (negative e) w = after_error h rest retries e w
  after_execute func h rest retries timeout w = after_timeout func h rest retries w
  after_execute func h rest retries (raised x) w = finished (err (foreign x)) w

  -- One round of `while True`.
  unfoldable pub round : String → List Handler → Option ℕ → W → Round W A
  round func [] retries w = finished (err empty_stack) w
  round func (h ∷ rest) retries w =
      let (o, w') = inst.execute h.call w in after_execute func h rest retries o w'

  -- The loop, for at most `fuel` rounds; `none` means that it has not ended by then.
  unfoldable pub run : ℕ → String → Session → W → Option (Result A × W)
  run zero func s w = none
  run (suc fuel) func s w = resume (run fuel func) (round func s.stack s.connect_retries w)

  -- `Executor.__call__` on a fresh executor; `finally` leaves the stack empty.
  unfoldable pub call : ℕ → Function → W → Option (Result A × W)
  call fuel f w =
      run fuel f.fun
        (record {
          stack = push (new_handler none f) [];
          connect_retries = inst.config.connect_retries;
        })
        w
