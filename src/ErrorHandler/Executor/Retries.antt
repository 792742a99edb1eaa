-- ===== src/ErrorHandler/Executor/Retries.antt =====
-- How often a failing method is called: as often as the repeater of its first error allows.
use pyxcp.Prelude.{
  ℕ, zero, suc, ◌≤◌, ◌<◌, ◌≡◌, refl, false, Option, none, some, [], ◌∷◌, String, arith, ap, ◌⊎◌,
  inl, inr,
}
use text.Mathlib.Text.{◌==◌ as str_eq}
use pyxcp.Types.XcpError.{XcpError, err_cmd_synch, err_timeout, same}
use pyxcp.ErrorHandler.Results.{unrecoverable, ok, err}
use pyxcp.ErrorHandler.Repeater.{
  Count, infinite, times, Repeater, repeat-zero, repeat-suc, repeat-infinite,
}
use pyxcp.ErrorHandler.Recovery.{Function}
use pyxcp.ErrorHandler.Executor.{
  Outcome, returned, negative, timeout, Instance, Handler, push, push_all, again, finished,
  first_repeater, recovery, after_recovery, after_error, after_success, after_timeout,
  after_execute, round, resume, run, call,
}

-- The outcome is an error that the error handler sees as `e`.
abbrev pub IsError : {A : Type 0} → String → Outcome A → XcpError → Type 0
IsError func o e =
    (o ≡ negative e) ⊎ ((o ≡ timeout) × (str_eq func "connect" ≡ false) × (e ≡ err_timeout))

module _ {W A : Type 0} (inst : Instance W A) (f : Function) (e : XcpError) (r : Repeater) where
  -- `n` executions of `f` lead from `u` to `w`, and fail all with `e`, for which the matrix asks
  -- for no call and for the repeater `r`.
  abbrev pub Fails : ℕ → W → W → Type 0
  Fails zero u w = u ≡ w
  Fails (suc n) u w =
      (o : Outcome A) × (v : W) × (inst.execute f u ≡ (o, v))
      × IsError f.fun o e
      × (recovery inst e v ≡ ok ([], r))
      × Fails n v w

  module _ (other : same e err_cmd_synch ≡ false) where
    after_error-plain :
        (h : Handler) (retries : Option ℕ) (v : W)
        → recovery inst e v ≡ ok ([], r)
        → after_error inst h [] retries e v ≡ after_recovery inst h [] retries e v (ok ([], r))
    unfolding after_error
    after_error-plain h retries v q = rw (other, q)

    after_execute-IsError :
        (h : Handler) (retries : Option ℕ) (o : Outcome A) (v : W)
        → IsError f.fun o e
        → recovery inst e v ≡ ok ([], r)
        → after_execute inst f.fun h [] retries o v
          ≡ after_recovery inst h [] retries e v (ok ([], r))
    unfolding after_execute after_timeout
    after_execute-IsError h retries o v (inl p) q = rw p (after_error-plain h retries v q)
    after_execute-IsError h retries o v (inr (p, c, t)) q =
        rw (p, c, ← t) (after_error-plain h retries v q)

    run-Fails :
        (fuel : ℕ) (h : Handler) (retries : Option ℕ) (o : Outcome A) (u v : W)
        → h.call ≡ f
        → inst.execute f u ≡ (o, v)
        → IsError f.fun o e
        → recovery inst e v ≡ ok ([], r)
        → run inst (suc fuel) f.fun (record { stack = h ∷ []; connect_retries = retries }) u
          ≡ resume (run inst fuel f.fun) (after_recovery inst h [] retries e v (ok ([], r)))
    unfolding run round
    run-Fails fuel h retries o u v c x q rec =
        let x' : inst.execute h.call u ≡ (o, v) = rw c x in
        rw x' (ap (resume (run inst fuel f.fun)) (after_execute-IsError h retries o v q rec))

    -- The handler after its failure.
    abbrev failed : Handler → Repeater → Handler
    failed h r' = record h { error_code = some e; repeater = some r' }

    after_recovery-zero :
        (h : Handler) (retries : Option ℕ) (v : W)
        → (first_repeater h.repeater r).counter ≡ times zero
        → after_recovery inst h [] retries e v (ok ([], r)) ≡ finished (err unrecoverable) v
    unfolding after_recovery
    after_recovery-zero h retries v t = rw (repeat-zero (first_repeater h.repeater r) t)

    after_recovery-suc :
        (h : Handler) (retries : Option ℕ) (v : W) (n : ℕ)
        → (first_repeater h.repeater r).counter ≡ times (suc n)
        → after_recovery inst h [] retries e v (ok ([], r))
          ≡ again
              (record {
                stack = failed h (record (first_repeater h.repeater r) { counter = times n }) ∷ [];
                connect_retries = retries;
              })
              v
    unfolding after_recovery push_all
    after_recovery-suc h retries v n t = rw (repeat-suc (first_repeater h.repeater r) n t)

    first_repeater-some : {r' : Repeater} → first_repeater (some r') r ≡ r'
    unfolding first_repeater
    first_repeater-some = refl

    run-exhausted :
        (n fuel : ℕ) (h : Handler) (retries : Option ℕ) (u w : W)
        → h.call ≡ f
        → (first_repeater h.repeater r).counter ≡ times n
        → Fails (suc n) u w
        → n < fuel
        → run inst fuel f.fun (record { stack = h ∷ []; connect_retries = retries }) u
          ≡ some (err unrecoverable, w)
    unfolding resume
    run-exhausted n zero h retries u w c t p l = absurd (omega arith)
    run-exhausted zero (suc fuel) h retries u w c t (o, v, x, q, rec, p) l =
        rw (run-Fails fuel h retries o u v c x q rec, after_recovery-zero h retries v t, p)
    run-exhausted (suc n) (suc fuel) h retries u w c t (o, v, x, q, rec, p) l =
        rw (run-Fails fuel h retries o u v c x q rec, after_recovery-suc h retries v n t)
          (run-exhausted n fuel
            (failed h (record (first_repeater h.repeater r) { counter = times n })) retries v w c
            (ap (λ x. x.counter) first_repeater-some) p (omega arith))

    -- The repeater allows `j` repetitions.
    abbrev pub Allows : Count → ℕ → Type 0
    Allows infinite j = Unit
    Allows (times n) j = j ≤ n

    after_recovery-infinite :
        (h : Handler) (retries : Option ℕ) (v : W)
        → (first_repeater h.repeater r).counter ≡ infinite
        → after_recovery inst h [] retries e v (ok ([], r))
          ≡ again
              (record {
                stack = failed h (record (first_repeater h.repeater r) { counter = infinite }) ∷ [];
                connect_retries = retries;
              })
              v
    unfolding after_recovery push_all
    after_recovery-infinite h retries v t = rw (repeat-infinite (first_repeater h.repeater r) t)

    run-returns :
        (fuel : ℕ) (h : Handler) (retries : Option ℕ) (a : A) (u w : W)
        → h.call ≡ f
        → inst.execute f u ≡ (returned a, w)
        → run inst (suc fuel) f.fun (record { stack = h ∷ []; connect_retries = retries }) u
          ≡ some (ok a, w)
    unfolding run round after_execute after_success resume
    run-returns fuel h retries a u w c x =
        let x' : inst.execute h.call u ≡ (returned a, w) = rw c x in rw x'

    run-recovers :
        (c : Count) (j fuel : ℕ) (h : Handler) (retries : Option ℕ) (a : A) (u v w : W)
        → h.call ≡ f
        → (first_repeater h.repeater r).counter ≡ c
        → Allows c j
        → Fails j u v
        → inst.execute f v ≡ (returned a, w)
        → j < fuel
        → run inst fuel f.fun (record { stack = h ∷ []; connect_retries = retries }) u
          ≡ some (ok a, w)
    unfolding resume
    run-recovers c j zero h retries a u v w k t al p x l = absurd (omega arith)
    run-recovers c zero (suc fuel) h retries a u v w k t al p x l =
        run-returns fuel h retries a u w k (rw p x)
    run-recovers (times zero) (suc j) (suc fuel) h retries a u v w k t al p x l =
        absurd (omega arith)
    run-recovers (times (suc n)) (suc j) (suc fuel) h retries a u v w k t al (o, z, y, q, rec, p) x
          l =
        rw (run-Fails fuel h retries o u z k y q rec, after_recovery-suc h retries z n t)
          (run-recovers (times n) j fuel
            (failed h (record (first_repeater h.repeater r) { counter = times n })) retries a z v w
            k (ap (λ b. b.counter) first_repeater-some) (omega arith) p x (omega arith))
    run-recovers infinite (suc j) (suc fuel) h retries a u v w k t al (o, z, y, q, rec, p) x l =
        rw (run-Fails fuel h retries o u z k y q rec, after_recovery-infinite h retries z t)
          (run-recovers infinite j fuel
            (failed h (record (first_repeater h.repeater r) { counter = infinite })) retries a z v w
            k (ap (λ b. b.counter) first_repeater-some) tt p x (omega arith))

    run-infinite :
        (fuel : ℕ) (h : Handler) (retries : Option ℕ) (u w : W)
        → h.call ≡ f
        → (first_repeater h.repeater r).counter ≡ infinite
        → Fails fuel u w
        → run inst fuel f.fun (record { stack = h ∷ []; connect_retries = retries }) u ≡ none
    unfolding resume
    run-infinite zero h retries u w k t p = unfold run in refl
    run-infinite (suc fuel) h retries u w k t (o, z, y, q, rec, p) =
        rw (run-Fails fuel h retries o u z k y q rec, after_recovery-infinite h retries z t)
          (run-infinite fuel
            (failed h (record (first_repeater h.repeater r) { counter = infinite })) retries z w k
            (ap (λ b. b.counter) first_repeater-some) p)

    -- A method fails each time with one and the same error, which is not ERR_CMD_SYNCH and not a
    -- time-out of CONNECT, and for which the matrix asks each time for no call of a pre-action and
    -- for one and the same repeater. If it fails once more than that repeater allows, it is
    -- executed exactly that often, and then the call is unrecoverable.
    pub call-exhausted :
        (n fuel : ℕ) (u w : W)
        → r.counter ≡ times n
        → Fails (suc n) u w
        → n < fuel
        → call inst fuel f u ≡ some (err unrecoverable, w)
    unfolding call push first_repeater
    call-exhausted n fuel u w t p l = run-exhausted n fuel _ _ u w refl t p l

    -- A method fails some times, each time with one and the same error, which is not ERR_CMD_SYNCH
    -- and not a time-out of CONNECT, and for which the matrix asks each time for no call of a
    -- pre-action and for one and the same repeater. If these are at most as many times as the
    -- repeater allows, and then the method returns, it is executed once more than it failed, and
    -- the call returns its result.
    pub call-recovers :
        (j fuel : ℕ) (a : A) (u v w : W)
        → Allows r.counter j
        → Fails j u v
        → inst.execute f v ≡ (returned a, w)
        → j < fuel
        → call inst fuel f u ≡ some (ok a, w)
    unfolding call push first_repeater
    call-recovers j fuel a u v w al p x l =
        run-recovers r.counter j fuel _ _ a u v w refl refl al p x l

    pub call-infinite :
        (fuel : ℕ) (u w : W) → r.counter ≡ infinite → Fails fuel u w → call inst fuel f u ≡ none
    unfolding call push first_repeater
    call-infinite fuel u w t p = run-infinite fuel _ _ u w refl t p
