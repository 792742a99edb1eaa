-- ===== src/Optimize/Tests.antt =====
-- Runs of the optimisation, and the theorems at concrete measurements.
use mathlib.Core.List.{Perm}
use pyxcp.Prelude.{ℕ, ◌≤◌, ◌≡◌, refl, none, some, List, [], ◌∷◌, arith, All}
use pyxcp.Prelude.Sort.{sort}
use pyxcp.Optimize.BinPacking.{Bin, packed, too_large, place, first_fit_decreasing}
use pyxcp.Optimize.BinPacking.Capacity.{AreExact}
use pyxcp.Optimize.BinPacking.Items.{contents, first_fit_decreasing-Packs}
use pyxcp.Optimize.Blocks.{McObject, Section, key_le, group, make_continuous_blocks}
use pyxcp.Optimize.Blocks.Cover.{IsCovered, make_continuous_blocks-covers}
use pyxcp.Optimize.Blocks.Bound.{Fits, make_continuous_blocks-Fits}

abbrev mc : ℕ → ℕ → McObject
mc a n = record { address = a; ext = 0; length = n }

abbrev measurements : List McObject
measurements = mc 0x1004 4 ∷ mc 0x1000 4 ∷ mc 0x1000 2 ∷ mc 0x2000 1 ∷ []

abbrev joined : List Section
joined =
    record { address = 0x1000; ext = 0; length = 8; components = mc 0x1000 4 ∷ mc 0x1004 4 ∷ [] }
    ∷ record { address = 0x2000; ext = 0; length = 1; components = mc 0x2000 1 ∷ [] }
    ∷ []

joins : make_continuous_blocks measurements none none ≡ joined
unfolding make_continuous_blocks
joins = refl

keeps_to_bound :
    make_continuous_blocks measurements (some 7) none
    ≡ record { address = 0x1000; ext = 0; length = 4; components = mc 0x1000 4 ∷ [] }
      ∷ record { address = 0x1004; ext = 0; length = 4; components = mc 0x1004 4 ∷ [] }
      ∷ record { address = 0x2000; ext = 0; length = 1; components = mc 0x2000 1 ∷ [] }
      ∷ []
unfolding make_continuous_blocks
keeps_to_bound = refl

make_continuous_blocks-covers_example :
    All (IsCovered (make_continuous_blocks measurements (some 64) none)) measurements
    × All (Fits 65535) (make_continuous_blocks measurements (some 64) none)
unfolding group sort key_le
make_continuous_blocks-covers_example =
    make_continuous_blocks-covers measurements 64 none (omega arith) (omega arith) (omega arith)
      (omega arith) (omega arith)

make_continuous_blocks-Fits_example :
    All (Fits 7) (make_continuous_blocks measurements (some 7) none)
make_continuous_blocks-Fits_example =
    make_continuous_blocks-Fits measurements 7 7 none (omega arith) (omega arith) (omega arith)
      (omega arith)

abbrev lengths : List ℕ
lengths = 2 ∷ 4 ∷ 3 ∷ 4 ∷ []

abbrev itself : ℕ → ℕ
itself n = n

abbrev bins : List (Bin ℕ)
bins =
    record { size = 3; residual_capacity = 0; entries = 3 ∷ [] }
    ∷ record { size = 6; residual_capacity = 0; entries = 4 ∷ 2 ∷ [] }
    ∷ record { size = 6; residual_capacity = 2; entries = 4 ∷ [] }
    ∷ []

packs_lengths : first_fit_decreasing itself lengths 6 (some 3) ≡ packed bins
unfolding first_fit_decreasing place
packs_lengths = refl

refuses_length : first_fit_decreasing itself (2 ∷ 7 ∷ []) 6 none ≡ too_large 7
unfolding first_fit_decreasing place
refuses_length = refl

first_fit_decreasing-Packs_example :
    AreExact itself 3 6 bins × Perm (contents bins) lengths × All (λ n. n ≤ 6) lengths
unfolding first_fit_decreasing place
first_fit_decreasing-Packs_example = first_fit_decreasing-Packs itself lengths 6 (some 3)
