-- ===== src/Prelude/Runs.antt =====
-- Sequences of steps that may fail.
use mathlib.Core.Path.{◌≡◌, refl, ap, ◌∙◌}
use mathlib.Core.List.{List, [], ◌∷◌, ◌++◌}
use mathlib.Core.Option.{Option, none, some}

abbrev pub go_on : {S : Type 0} → (S → Option S) → Option S → Option S
go_on next none = none
go_on next (some s) = next s

module _ {C S : Type 0} (step : C → S → Option S) where
  unfoldable pub run : List C → S → Option S
  run [] s = some s
  run (c ∷ cs) s = go_on (run cs) (step c s)

  go_on-run :
      (cs ds : List C)
      → ((s : S) → run (cs ++ ds) s ≡ go_on (run ds) (run cs s))
      → (o : Option S) → go_on (run (cs ++ ds)) o ≡ go_on (run ds) (go_on (run cs) o)
  go_on-run cs ds h none = refl
  go_on-run cs ds h (some s) = h s

  run-append : (cs ds : List C) (s : S) → run (cs ++ ds) s ≡ go_on (run ds) (run cs s)
  unfolding run
  run-append [] ds s = refl
  run-append (c ∷ cs) ds s = go_on-run cs ds (run-append cs ds) (step c s)

  -- What comes after steps that succeed.
  pub run-through : (cs ds : List C) (s s' : S) → run cs s ≡ some s' → run (cs ++ ds) s ≡ run ds s'
  run-through cs ds s s' e = run-append cs ds s ∙ ap (go_on (run ds)) e

  pub run-first : (c : C) (cs : List C) (s s' : S) → step c s ≡ some s' → run (c ∷ cs) s ≡ run cs s'
  unfolding run
  run-first c cs s s' e = ap (go_on (run cs)) e
