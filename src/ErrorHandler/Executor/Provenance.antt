-- ===== src/ErrorHandler/Executor/Provenance.antt =====
-- What a call under error handling returns is what its own method returned.
use pyxcp.Prelude.{
  ℕ, zero, suc, ◌≡◌, refl, Option, none, some, List, [], ◌∷◌, reverse, String, arith, Bool-cases,
  Option-cases, inl, inr,
}
use text.Mathlib.Text.{◌==◌ as str_eq}
use pyxcp.Types.XcpError.{XcpError, err_cmd_synch, err_timeout, same}
use pyxcp.ErrorHandler.Results.{Result, ok, err}
use pyxcp.ErrorHandler.Repeater.{Repeater, repeat}
use pyxcp.ErrorHandler.Recovery.{Function}
use pyxcp.ErrorHandler.Executor.{
  Outcome, returned, negative, timeout, raised, Instance, Handler, push, push_all, Session, Round,
  again, finished, first_repeater, function_eq, recovery, after_recovery, after_error,
  after_success, connect_timeout, after_timeout, after_execute, round, resume, run, call,
}

-- The handler at the bottom of the stack calls `f`.
abbrev Bottom : Function → List Handler → Type 0
Bottom f [] = ⊥
Bottom f (h ∷ []) = h.call ≡ f
Bottom f (h ∷ t ∷ ts) = Bottom f (t ∷ ts)

module _ (f : Function) where
  Bottom-push : (h : Handler) (s : List Handler) → Bottom f s → Bottom f (push h s)
  unfolding push
  Bottom-push h [] b = elim b [ ]
  Bottom-push h (t ∷ ts) b = elim (Bool-cases (function_eq h.call t.call)) [
    | inl old ↦ rw old b
    | inr new ↦ rw new b
  ]

  Bottom-push_all :
      (e : XcpError) (fs : List Function) (s : List Handler)
      → Bottom f s
      → Bottom f (push_all e fs s)
  unfolding push_all
  Bottom-push_all e [] s b = b
  Bottom-push_all e (g ∷ gs) s b = Bottom-push_all e gs (push _ s) (Bottom-push _ s b)

  Bottom-same :
      (h h' : Handler) (rest : List Handler)
      → h'.call ≡ h.call
      → Bottom f (h ∷ rest)
      → Bottom f (h' ∷ rest)
  Bottom-same h h' [] p b = ground arith
  Bottom-same h h' (t ∷ ts) p b = b

module _ {W A : Type 0} (inst : Instance W A) (f : Function) where
  -- What a round that started above `f`, and ran the top handler from `u`, may end in.
  abbrev Sound : W → Round W A → Type 0
  Sound u (again s w) = Bottom f s.stack
  Sound u (finished (ok a) w) = inst.execute f u ≡ (returned a, w)
  Sound u (finished (err x) w) = Unit

  after_recovery-Sound :
      (h : Handler) (rest : List Handler) (retries : Option ℕ) (e : XcpError) (u w : W)
      (r : Result (List Function × Repeater))
      → Bottom f (h ∷ rest)
      → Sound u (after_recovery inst h rest retries e w r)
  unfolding after_recovery
  after_recovery-Sound h rest retries e u w (err x) b = tt
  after_recovery-Sound h rest retries e u w (ok (calls, r)) b =
      elim (Bool-cases (repeat (first_repeater h.repeater r)).0) [
        | inl more ↦ rw more (
            Bottom-push_all f e (reverse calls) _ (
              Bottom-same f h
                (record h {
                  error_code = some e;
                  repeater = some (repeat (first_repeater h.repeater r)).1;
                })
                rest refl b))
        | inr less ↦ rw less tt
      ]

  after_error-Sound :
      (h : Handler) (rest : List Handler) (retries : Option ℕ) (e : XcpError) (u w : W)
      → Bottom f (h ∷ rest)
      → Sound u (after_error inst h rest retries e w)
  unfolding after_error
  after_error-Sound h rest retries e u w b = elim (Bool-cases (same e err_cmd_synch)) [
    | inl synch ↦ rw synch (Bottom-same f h (record h { error_code = some e }) rest refl b)
    | inr other ↦ rw other (after_recovery-Sound h rest retries e u w (recovery inst e w) b)
  ]

  after_success-Sound :
      (h : Handler) (rest : List Handler) (retries : Option ℕ) (a : A) (u w : W)
      → Bottom f (h ∷ rest)
      → inst.execute h.call u ≡ (returned a, w)
      → Sound u (after_success inst h rest retries a w)
  unfolding after_success
  after_success-Sound h [] retries a u w b p = rw (← b) p
  after_success-Sound h (t ∷ ts) retries a u w b p = elim (Option-cases h.repeater) [
    | inl fresh ↦ rw (fresh, after_success) b
    | inr (r, used) ↦ elim (Bool-cases (repeat r).0) [
      | inl more ↦ rw (used, more) b
      | inr less ↦ rw (used, less) tt
    ]
  ]

  connect_timeout-Sound :
      (h : Handler) (rest : List Handler) (retries : Option ℕ) (u w : W)
      → Bottom f (h ∷ rest)
      → Sound u (connect_timeout inst h rest retries w)
  unfolding connect_timeout
  connect_timeout-Sound h rest none u w b = after_error-Sound h rest none err_timeout u w b
  connect_timeout-Sound h rest (some zero) u w b = tt
  connect_timeout-Sound h rest (some (suc n)) u w b =
      after_error-Sound h rest (some n) err_timeout u w b

  after_execute-Sound :
      (func : String) (h : Handler) (rest : List Handler) (retries : Option ℕ) (o : Outcome A)
      (u w : W)
      → Bottom f (h ∷ rest)
      → inst.execute h.call u ≡ (o, w)
      → Sound u (after_execute inst func h rest retries o w)
  unfolding after_execute after_timeout
  after_execute-Sound func h rest retries (returned a) u w b p =
      after_success-Sound h rest retries a u w b p
  after_execute-Sound func h rest retries (negative e) u w b p =
      after_error-Sound h rest retries e u w b
  after_execute-Sound func h rest retries timeout u w b p =
      elim (Bool-cases (str_eq func "connect")) [
        | inl yes_connect ↦ rw yes_connect (connect_timeout-Sound h rest retries u w b)
        | inr other ↦ rw other (after_error-Sound h rest retries err_timeout u w b)
      ]
  after_execute-Sound func h rest retries (raised x) u w b p = tt

  round-Sound :
      (func : String) (s : List Handler) (retries : Option ℕ) (w : W)
      → Bottom f s
      → Sound w (round inst func s retries w)
  unfolding round
  round-Sound func [] retries w b = tt
  round-Sound func (h ∷ rest) retries w b =
      after_execute-Sound func h rest retries (inst.execute h.call w).0 w (inst.execute h.call w).1
        b refl

  resume-Sound :
      (next : Session → W → Option (Result A × W)) (r : Round W A) (u w : W) (a : A)
      → ((s : Session) (v : W)
          → Bottom f s.stack
          → next s v ≡ some (ok a, w)
          → (x : W) × (inst.execute f x ≡ (returned a, w)))
      → Sound u r
      → resume next r ≡ some (ok a, w)
      → (x : W) × (inst.execute f x ≡ (returned a, w))
  unfolding resume
  resume-Sound next (again s v) u w a rec b p = rec s v b p
  resume-Sound next (finished (ok c) v) u w a rec b p = (u, cc)
  resume-Sound next (finished (err x) v) u w a rec b p = absurd (cc)

  run-Sound :
      (fuel : ℕ) (func : String) (s : Session) (w w' : W) (a : A)
      → Bottom f s.stack
      → run inst fuel func s w ≡ some (ok a, w')
      → (u : W) × (inst.execute f u ≡ (returned a, w'))
  unfolding run
  run-Sound zero func s w w' a b p = absurd (cc)
  run-Sound (suc fuel) func s w w' a b p =
      resume-Sound (run inst fuel func) (round inst func s.stack s.connect_retries w) w w' a
        (λ s' v. run-Sound fuel func s' v w' a) (round-Sound func s.stack s.connect_retries w b) p

-- A call that returns gives what its own method returned in the last execution, and leaves the
-- world that this execution left, however many pre-actions and repetitions came before.
pub call-returned :
    {W A : Type 0} (inst : Instance W A) (fuel : ℕ) (f : Function) (w w' : W) (a : A)
    → call inst fuel f w ≡ some (ok a, w')
    → (u : W) × (inst.execute f u ≡ (returned a, w'))
unfolding call push
call-returned inst fuel f w w' a = run-Sound inst f fuel f.fun _ w w' a refl
