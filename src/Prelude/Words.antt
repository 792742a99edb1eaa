-- ===== src/Prelude/Words.antt =====
-- Bit operations of unbounded integers in the form that the arithmetic tactics read.
use Prim.Native.Nat.{ℕ, ◌*◌, ◌/◌, ◌^◌}

infixl 75 ◌<<<◌ ◌>>>◌
abbrev pub ◌<<<◌ : ℕ → ℕ → ℕ
x <<< k = x * 2 ^ k

abbrev pub ◌>>>◌ : ℕ → ℕ → ℕ
x >>> k = x / 2 ^ k
