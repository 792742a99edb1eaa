-- ===== src/Prelude/Bits.antt =====
-- Laws of exclusive or and of masks at variables, from the recursion on binary digits that the
-- native operations stand for.
use Prim.Native.Nat.{
  ℕ, zero, suc, ◌+◌, ◌-◌, ◌*◌, ◌/◌, ◌%◌, ◌^◌, ◌≤◌, ◌<◌, min, max, bit_and, bit_or, bit_or-bitwise,
  bit_xor, digits, differ, bit_and-bitwise, bit_xor-bitwise,
}
use mathlib.Core.Path.{◌≡◌, refl, sym, ap, ◌∙◌}
use mathlib.Core.Logic.{◌↔◌}
use mathlib.Core.Bool.{Bool, true, ◌&&◌}
use native.Mathlib.Omega.{arith}

-- A test of every number below a bound.
unfoldable pub all_below : ℕ → (ℕ → Bool) → Bool
all_below zero p = true
all_below (suc n) p = p n && all_below n p

pub all_below_lem : (n : ℕ) (p : ℕ → Bool) (x : ℕ) → all_below n p ≡ true → x < n → p x ≡ true
unfolding all_below
all_below_lem zero p x h lt = absurd (omega arith)
all_below_lem (suc n) p x h lt = ground (arith, all_below_lem n p x)

module _ (z : ℕ → ℕ) (f : ℕ → ℕ → ℕ) where
  -- More rounds than the first number needs change nothing.
  digits-enough : (a b n m : ℕ) → a ≤ n → a ≤ m → digits z f n a b ≡ digits z f m a b
  digits-enough zero b zero zero p q = refl
  digits-enough zero b zero (suc m) p q = refl
  digits-enough zero b (suc n) zero p q = refl
  digits-enough zero b (suc n) (suc m) p q = refl
  digits-enough (suc a) b zero m p q = absurd (omega arith)
  digits-enough (suc a) b (suc n) zero p q = absurd (omega arith)
  digits-enough (suc a) b (suc n) (suc m) p q =
      rw (digits-enough (suc a / 2) (b / 2) n m (omega arith) (omega arith))

pub bit_xor_step : (a b : ℕ) → bit_xor a b ≡ bit_xor (a / 2) (b / 2) * 2 + differ (a % 2) (b % 2)
bit_xor_step zero b = omega (arith, bit_xor-bitwise 0 b, bit_xor-bitwise 0 (b / 2))
bit_xor_step (suc a) b = omega (
  arith,
  bit_xor-bitwise (suc a) b,
  bit_xor-bitwise (suc a / 2) (b / 2),
  digits-enough (λ y. y) differ (suc a / 2) (b / 2) a (suc a / 2) (omega arith) (omega arith),
)

pub bit_and_step : (a b : ℕ) → bit_and a b ≡ bit_and (a / 2) (b / 2) * 2 + min (a % 2) (b % 2)
bit_and_step zero b = omega (arith, bit_and-bitwise 0 b, bit_and-bitwise 0 (b / 2))
bit_and_step (suc a) b = omega (
  arith,
  bit_and-bitwise (suc a) b,
  bit_and-bitwise (suc a / 2) (b / 2),
  digits-enough (λ y. 0) min (suc a / 2) (b / 2) a (suc a / 2) (omega arith) (omega arith),
)

pub bit_or_step : (a b : ℕ) → bit_or a b ≡ bit_or (a / 2) (b / 2) * 2 + max (a % 2) (b % 2)
bit_or_step zero b = omega (arith, bit_or-bitwise 0 b, bit_or-bitwise 0 (b / 2))
bit_or_step (suc a) b = omega (
  arith,
  bit_or-bitwise (suc a) b,
  bit_or-bitwise (suc a / 2) (b / 2),
  digits-enough (λ y. y) max (suc a / 2) (b / 2) a (suc a / 2) (omega arith) (omega arith),
)

pub zero-bit_xor : (b : ℕ) → bit_xor 0 b ≡ b
zero-bit_xor b = bit_xor-bitwise 0 b

differ-zero : (x : ℕ) → differ x 0 ≡ x
differ-zero zero = refl
differ-zero (suc x) = refl

bit_xor-zero_bound : (n a : ℕ) → a ≤ n → bit_xor a 0 ≡ a
bit_xor-zero_bound n zero h = refl
bit_xor-zero_bound zero (suc a) h = absurd (omega arith)
bit_xor-zero_bound (suc n) (suc a) h = omega (
  arith,
  bit_xor_step (suc a) 0,
  bit_xor-zero_bound n (suc a / 2) (omega arith),
  differ-zero (suc a % 2),
)

pub bit_xor-zero : (a : ℕ) → bit_xor a 0 ≡ a
bit_xor-zero a = bit_xor-zero_bound a a (omega arith)

bit_and-zero_bound : (n a : ℕ) → a ≤ n → bit_and a 0 ≡ 0
bit_and-zero_bound n zero h = refl
bit_and-zero_bound zero (suc a) h = absurd (omega arith)
bit_and-zero_bound (suc n) (suc a) h =
    omega (arith, bit_and_step (suc a) 0, bit_and-zero_bound n (suc a / 2) (omega arith))

pub bit_and-zero : (a : ℕ) → bit_and a 0 ≡ 0
bit_and-zero a = bit_and-zero_bound a a (omega arith)

bit_or-zero_bound : (n a : ℕ) → a ≤ n → bit_or a 0 ≡ a
bit_or-zero_bound n zero h = refl
bit_or-zero_bound zero (suc a) h = absurd (omega arith)
bit_or-zero_bound (suc n) (suc a) h =
    omega (arith, bit_or_step (suc a) 0, bit_or-zero_bound n (suc a / 2) (omega arith))

pub bit_or-zero : (a : ℕ) → bit_or a 0 ≡ a
bit_or-zero a = bit_or-zero_bound a a (omega arith)

digit-cases : (x : ℕ) → x < 2 → (P : ℕ → Type 0) → P 0 → P 1 → P x
digit-cases zero h P p q = p
digit-cases (suc zero) h P p q = q
digit-cases (suc (suc x)) h P p q = absurd (omega arith)

differ-digits : (x y : ℕ) → x < 2 → y < 2 → differ x y < 2
differ-digits x y p q =
    digit-cases x p (λ x'. differ x' y < 2) q
      (digit-cases y q (λ y'. differ 1 y' < 2) (omega arith) (omega arith))

pub bit_xor-bound : (k a b : ℕ) → a < 2 ^ k → b < 2 ^ k → bit_xor a b < 2 ^ k
bit_xor-bound zero a b p q =
    let x : a ≡ 0 = omega arith in let y : b ≡ 0 = omega arith in rw (x, y) (omega arith)
bit_xor-bound (suc k) a b p q = omega (
  arith,
  bit_xor_step a b,
  bit_xor-bound k (a / 2) (b / 2) (omega arith) (omega arith),
  differ-digits (a % 2) (b % 2) (omega arith) (omega arith),
)

shift-suc : (k a : ℕ) → a * 2 ^ suc k ≡ a * 2 ^ k * 2
shift-suc k a = grind arith

-- A number cut at bit k is cut there in each of the operands.
module _ (op f : ℕ → ℕ → ℕ) where
  split :
      ((a b : ℕ) → op a b ≡ op (a / 2) (b / 2) * 2 + f (a % 2) (b % 2))
      → op 0 0 ≡ 0
      → (k a b r s : ℕ) → r < 2 ^ k
      → s < 2 ^ k
      → op (a * 2 ^ k + r) (b * 2 ^ k + s) ≡ op a b * 2 ^ k + op r s
  split step none zero a b r s p q =
      let x : r ≡ 0 = omega arith in
      let y : s ≡ 0 = omega arith in
      let one : (c : ℕ) → c * 2 ^ 0 + 0 ≡ c = λ c. omega arith in
      rw (x, y, one a, one b) (omega arith)
  split step none (suc k) a b r s p q =
      let halve : (c t : ℕ) → (c * 2 ^ suc k + t) / 2 ≡ c * 2 ^ k + t / 2 =
        λ c t. omega (arith, shift-suc k c) in
      let low : (c t : ℕ) → (c * 2 ^ suc k + t) % 2 ≡ t % 2 = λ c t. omega (arith, shift-suc k c) in
      rw
        (
          step (a * 2 ^ suc k + r) (b * 2 ^ suc k + s),
          halve a r,
          halve b s,
          low a r,
          low b s,
          split step none k a b (r / 2) (s / 2) (omega arith) (omega arith),
        )
        (omega (arith, step r s, shift-suc k (op a b)))

pub bit_xor_split :
    (k a b r s : ℕ)
    → r < 2 ^ k
    → s < 2 ^ k
    → bit_xor (a * 2 ^ k + r) (b * 2 ^ k + s) ≡ bit_xor a b * 2 ^ k + bit_xor r s
bit_xor_split = split bit_xor differ bit_xor_step refl

pub bit_and_split :
    (k a b r s : ℕ)
    → r < 2 ^ k
    → s < 2 ^ k
    → bit_and (a * 2 ^ k + r) (b * 2 ^ k + s) ≡ bit_and a b * 2 ^ k + bit_and r s
bit_and_split = split bit_and min bit_and_step refl

pub bit_or_split :
    (k a b r s : ℕ)
    → r < 2 ^ k
    → s < 2 ^ k
    → bit_or (a * 2 ^ k + r) (b * 2 ^ k + s) ≡ bit_or a b * 2 ^ k + bit_or r s
bit_or_split = split bit_or max bit_or_step refl

-- A mask of k ones keeps the k lowest digits.
pub bit_and_mask : (k a r : ℕ) → r < 2 ^ k → bit_and (a * 2 ^ k + r) (2 ^ k - 1) ≡ r
bit_and_mask zero a r p = omega (arith, bit_and-zero (a * 2 ^ 0 + r))
bit_and_mask (suc k) a r p =
    let halve : (a * 2 ^ suc k + r) / 2 ≡ a * 2 ^ k + r / 2 = omega (arith, shift-suc k a) in
    let low : (a * 2 ^ suc k + r) % 2 ≡ r % 2 = omega (arith, shift-suc k a) in
    let ones : (2 ^ suc k - 1) / 2 ≡ 2 ^ k - 1 = omega arith in
    rw (bit_and_step (a * 2 ^ suc k + r), halve, low, ones, bit_and_mask k a (r / 2) (omega arith))
      (omega arith)

-- Exclusive or is 0 exactly for equal numbers.
differ-zero_eq : (x y : ℕ) → differ x y ≡ 0 → x ≡ y
differ-zero_eq zero y e = sym e
differ-zero_eq (suc x) zero e = absurd (omega arith)
differ-zero_eq (suc x) (suc y) e = ap suc (differ-zero_eq x y e)

differ_self : (x : ℕ) → differ x x ≡ 0
differ_self zero = refl
differ_self (suc x) = differ_self x

bit_xor-zero_eq : (n a b : ℕ) → a + b ≤ n → bit_xor a b ≡ 0 → a ≡ b
bit_xor-zero_eq zero a b p e = omega arith
bit_xor-zero_eq (suc n) zero b p e = sym e ∙ zero-bit_xor b
bit_xor-zero_eq (suc n) (suc a) b p e =
    let d : differ (suc a % 2) (b % 2) ≡ 0 = omega (arith, bit_xor_step (suc a) b, e) in
    let h : bit_xor (suc a / 2) (b / 2) ≡ 0 = omega (arith, bit_xor_step (suc a) b, e) in
    omega (
      arith,
      differ-zero_eq (suc a % 2) (b % 2) d,
      bit_xor-zero_eq n (suc a / 2) (b / 2) (omega arith) h,
    )

bit_xor_self_bound : (n a : ℕ) → a ≤ n → bit_xor a a ≡ 0
bit_xor_self_bound n zero p = refl
bit_xor_self_bound zero (suc a) p = absurd (omega arith)
bit_xor_self_bound (suc n) (suc a) p = omega (
  arith,
  bit_xor_step (suc a) (suc a),
  bit_xor_self_bound n (suc a / 2) (omega arith),
  differ_self (suc a % 2),
)

pub bit_xor_iff : (a b : ℕ) → (bit_xor a b ≡ 0) ↔ (a ≡ b)
bit_xor_iff a b =
    (bit_xor-zero_eq (a + b) a b (omega arith), λ e. rw e (bit_xor_self_bound b b (omega arith)))
