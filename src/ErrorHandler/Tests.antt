-- ===== src/ErrorHandler/Tests.antt =====
-- Runs of the error handler against a slave that answers by a script.
use pyxcp.Prelude.{ℕ, ◌≡◌, refl, none, some, List, [], ◌∷◌, String, if◌then◌else◌, arith, inl}
use text.Mathlib.Text.{◌==◌ as str_eq}
use pyxcp.Types.Command.{Command}
use pyxcp.Types.XcpError.{
  same, err_resource_temporary_not_accessible, err_cmd_busy, err_access_locked,
}
use pyxcp.ErrorMatrix.Action.{PreAction, Action, one, handles}
use pyxcp.ErrorHandler.Results.{unrecoverable, connect_retries_exceeded, not_implemented, ok, err}
use pyxcp.ErrorHandler.Repeater.{infinite, times, Repeater, repeat}
use pyxcp.ErrorHandler.Arguments.{no_arguments}
use pyxcp.ErrorHandler.Recovery.{Function, General, master_config, get_actions, actions}
use pyxcp.ErrorHandler.Executor.{
  Outcome, returned, negative, timeout, raised, Instance, first_repeater, recovery, after_recovery,
  after_error, after_success, connect_timeout, after_timeout, after_execute, round, resume, run,
  call, push, push_all,
}
use pyxcp.ErrorHandler.Executor.Provenance.{call-returned}
use pyxcp.ErrorHandler.Executor.Retries.{call-exhausted, call-recovers}
use pyxcp.ErrorHandler.Executor.Busy.{call-busy}
use pyxcp.ErrorHandler.Executor.Connect.{call-connect}
use pyxcp.ErrorHandler.Facts.{actions-locked}

-- The service that is being processed, and the outcomes to come.
abbrev World : Type 0
World = Command × List (Outcome ℕ)

abbrev service_of : String → Command
service_of name =
    if str_eq name "synch"
    then Command.synch
    else if str_eq name "connect"
    then Command.connect
    else Command.get_status

abbrev answer : Function → World → Outcome ℕ × World
answer f (c, []) = (raised 0, (c, []))
answer f (c, o ∷ os) = (o, (service_of f.fun, os))

abbrev general : General
general = record { connect_retries = some 1; max_retries = some (times 7) }

abbrev scripted : Instance World ℕ
scripted = record {
  execute = answer;
  service = λ w. w.0;
  mta = λ w. [];
  config = record { connect_retries = some 1; general = none };
}

abbrev get_status : Function
get_status = record { fun = "getStatus"; arguments = no_arguments }

abbrev connect : Function
connect = record { fun = "connect"; arguments = no_arguments }

abbrev fresh : List (Outcome ℕ) → World
fresh os = (Command.disconnect, os)

abbrev after : Command → World
after c = (c, [])

abbrev unavailable : Outcome ℕ
unavailable = negative err_resource_temporary_not_accessible

abbrev spent : Repeater
spent = record { counter = times 0; initial_value = times 2; max_retries = none }

-- A slave whose service is SET_MTA whatever is called.
abbrev busy : Instance World ℕ
busy = record scripted {
  execute = λ f w. elim w.1 [ [] ↦ (raised 0, w) | o ∷ os ↦ (o, (Command.set_mta, os)) ];
}

abbrev once : Repeater
once = record { counter = times 1; initial_value = times 1; max_retries = none }

abbrev endless : Repeater
endless = record { counter = infinite; initial_value = infinite; max_retries = none }

-- The executor and all that it calls, for the runs below.
executor : Unit {0}
unfolding recovery get_actions actions after_recovery after_error after_success connect_timeout
    after_timeout after_execute round resume run call push push_all first_repeater repeat same
    master_config
executor = tt

-- The slave does not answer, SYNCH is sent and succeeds, and the repetition succeeds.
synch_and_repeat :
    call scripted 9 get_status (fresh (timeout ∷ returned 1 ∷ returned 5 ∷ []))
    ≡ some (ok 5, after Command.get_status)
unfolding executor
synch_and_repeat = refl

-- The slave does not answer GET_STATUS, SYNCH fails twice and succeeds: the call is given up.
late_synch :
    call scripted 9 get_status (fresh (timeout ∷ timeout ∷ timeout ∷ returned 1 ∷ returned 5 ∷ []))
    ≡ some (err unrecoverable, (Command.synch, returned 5 ∷ []))
unfolding executor
late_synch = refl

call-returned_example : (u : World) × (answer get_status u ≡ (returned 5, after Command.get_status))
call-returned_example =
    call-returned scripted 9 get_status (fresh (timeout ∷ returned 1 ∷ returned 5 ∷ []))
      (after Command.get_status) 5 synch_and_repeat

call-exhausted_example :
    call scripted 2 get_status (fresh (unavailable ∷ unavailable ∷ []))
    ≡ some (err unrecoverable, after Command.get_status)
unfolding executor
call-exhausted_example =
    call-exhausted scripted get_status err_resource_temporary_not_accessible once refl 1 2
      (fresh (unavailable ∷ unavailable ∷ [])) (after Command.get_status) refl
      (
        unavailable,
        (Command.get_status, unavailable ∷ []),
        refl,
        inl refl,
        refl,
        (unavailable, after Command.get_status, refl, inl refl, refl, refl),
      )
      (omega arith)

call-recovers_example :
    call scripted 2 get_status (fresh (unavailable ∷ returned 5 ∷ []))
    ≡ some (ok 5, after Command.get_status)
unfolding executor
call-recovers_example =
    call-recovers scripted get_status err_resource_temporary_not_accessible once refl 1 2 5
      (fresh (unavailable ∷ returned 5 ∷ [])) (Command.get_status, returned 5 ∷ [])
      (after Command.get_status) (omega arith)
      (unavailable, (Command.get_status, returned 5 ∷ []), refl, inl refl, refl, refl) refl
      (omega arith)

call-busy_example :
    call busy 2 get_status (fresh (negative err_cmd_busy ∷ negative err_cmd_busy ∷ [])) ≡ none
unfolding executor
call-busy_example =
    call-busy busy get_status 2 (fresh (negative err_cmd_busy ∷ negative err_cmd_busy ∷ []))
      (after Command.set_mta) refl
      (
        (Command.set_mta, negative err_cmd_busy ∷ []),
        handles err_cmd_busy (one PreAction.wait_t7) (one Action.repeat_inf_times),
        refl,
        refl,
        (
          after Command.set_mta,
          handles err_cmd_busy (one PreAction.wait_t7) (one Action.repeat_inf_times),
          refl,
          refl,
          refl,
        ),
      )

call-connect_example :
    call scripted 2 connect (fresh (timeout ∷ timeout ∷ []))
    ≡ some (err connect_retries_exceeded, after Command.connect)
unfolding executor
call-connect_example =
    call-connect scripted connect general refl refl 1 2 (fresh (timeout ∷ timeout ∷ []))
      (after Command.connect) refl
      ((Command.connect, timeout ∷ []), refl, refl, (after Command.connect, refl, refl, refl))
      (omega arith)

actions-locked_example :
    actions scripted.config [] err_access_locked
      (one PreAction.unlock_slave)
      (one Action.repeat_2_times)
    ≡ err (not_implemented PreAction.unlock_slave)
unfolding executor
actions-locked_example =
    actions-locked Command.set_daq_ptr scripted.config []
      (handles err_access_locked (one PreAction.unlock_slave) (one Action.repeat_2_times))
      (λ p. ground arith) refl
