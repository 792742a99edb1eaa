-- ===== src/Daq/Setup/Slave/Configured.antt =====
-- A dynamic configuration as a whole (pyxcp/daq_stim/__init__.py: DaqProcessor.setup).
use pyxcp.Prelude.{ℕ, ◌≡◌, Bool, true, false, Option, none, some, List, [], ◌∷◌, length}
use pyxcp.Daq.Setup.{Layout, DaqList}
use pyxcp.Daq.Setup.Slave.{State}

-- One layout for each list.
abbrev Long : Option (List Layout) → ℕ → Type 0
Long none n = Unit
Long (some xs) n = length xs ≡ n

-- A list that asks for a packed mode.
abbrev pub any_packed : List DaqList → Bool
any_packed [] = false
any_packed (l ∷ ls) = elim l.packed_mode [ none ↦ any_packed ls | some p ↦ true ]

-- The slave when the lists are allocated.
abbrev freed : State → State
freed s = record s { count = 0; odt_counts = []; entry_counts = []; pointer = none; written = [] }

abbrev allocated : State → ℕ → State
allocated s n = record s { count = n }
