-- ===== src/Prelude/Masks.antt =====
-- Masks of some low bits and of a single bit, for bytes that hold several fields.
use Prim.Native.Nat.{ℕ, ◌+◌, ◌*◌, ◌/◌, ◌%◌, ◌^◌, ◌<◌, bit_and}
use mathlib.Core.Path.{◌≡◌, refl, ap, ◌∙◌}
use mathlib.Core.Bool.{Bool, true, false, not}
use native.Mathlib.Omega.{arith}
use pyxcp.Prelude.Tests.{◌==◌}
use pyxcp.Prelude.Bits.{bit_and-zero, bit_and_split, bit_and_mask}

-- The masks of one, two and three bits.
pub bit_and_one : (v : ℕ) → bit_and v 0x01 ≡ v % 2
bit_and_one v =
    let z : v ≡ v / 2 * 2 ^ 1 + v % 2 = omega arith in
    ap (λ n. bit_and n 0x01) z ∙ bit_and_mask 1 (v / 2) (v % 2) (omega arith)

pub bit_and_three : (v : ℕ) → bit_and v 0x03 ≡ v % 4
bit_and_three v =
    let z : v ≡ v / 4 * 2 ^ 2 + v % 4 = omega arith in
    ap (λ n. bit_and n 0x03) z ∙ bit_and_mask 2 (v / 4) (v % 4) (omega arith)

pub bit_and_seven : (v : ℕ) → bit_and v 0x07 ≡ v % 8
bit_and_seven v =
    let z : v ≡ v / 8 * 2 ^ 3 + v % 8 = omega arith in
    ap (λ n. bit_and n 0x07) z ∙ bit_and_mask 3 (v / 8) (v % 8) (omega arith)

-- The digit of a flag.
abbrev pub digit : Bool → ℕ
digit true = 1
digit false = 0

pub digit-bound : (b : Bool) → digit b < 2
digit-bound true = omega arith
digit-bound false = omega arith

-- The mask of one bit, at a number that has the flag `b` there.
pub bit_and_flag :
    (k : ℕ) (b : Bool) (high low v : ℕ)
    → low < 2 ^ k
    → v ≡ (high * 2 + digit b) * 2 ^ k + low
    → bit_and v (1 * 2 ^ k + 0) ≡ digit b * 2 ^ k
bit_and_flag k b high low v p e =
    ap (λ n. bit_and n (1 * 2 ^ k + 0)) e
    ∙ bit_and_split k (high * 2 + digit b) 1 low 0 p (omega (arith, p))
    ∙ ap (λ n. n * 2 ^ k + bit_and low 0) (lowest b)
    ∙ omega (arith, bit_and-zero low)
  where
    lowest : (c : Bool) → bit_and (high * 2 + digit c) 1 ≡ digit c
    lowest true = bit_and_mask 1 high 1 (omega arith)
    lowest false = bit_and_mask 1 high 0 (omega arith)

pub flag-read :
    (k : ℕ) (b : Bool) (high low v : ℕ)
    → 0 < 2 ^ k
    → low < 2 ^ k
    → v ≡ (high * 2 + digit b) * 2 ^ k + low
    → not (bit_and v (1 * 2 ^ k + 0) == 0) ≡ b
flag-read k true high low v z p e =
    let n : 0 < bit_and v (1 * 2 ^ k + 0) = omega (arith, z, bit_and_flag k true high low v p e) in
    ground (arith, n)
flag-read k false high low v z p e =
    let n : bit_and v (1 * 2 ^ k + 0) ≡ 0 = omega (arith, bit_and_flag k false high low v p e) in
    rw n refl
