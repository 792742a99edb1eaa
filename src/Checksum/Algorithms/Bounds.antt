-- ===== src/Checksum/Algorithms/Bounds.antt =====
-- Every algorithm gives a number of 32 bits, the width of the checksum in the slave's response
-- (pyxcp/checksum.py: ALGO, check).
use pyxcp.Prelude.{
  ℕ, ◌+◌, ◌*◌, ◌/◌, ◌%◌, ◌^◌, ◌<◌, ◌≤◌, ◌==◌, ◌||◌, length, ◌≡◌, refl, ap, ◌∙◌, true, List, [], ◌∷◌,
  String, Bool-cases, inl, inr, All, ltb, ltb→lt, if◌then◌else◌, bit_and, arith,
}
use native.Mathlib.Nat.{mod-lt}
use text.Mathlib.Text.{◌==◌ as str_eq}
use pyxcp.Prelude.Bits.{all_below, all_below_lem, bit_xor-zero, bit_and_mask}
use pyxcp.Checksum.Crc.{
  reflect_loop, reflect, Crc16, updates, update, reflect_out, crc, crc16, crc16_ccitt,
}
use pyxcp.Checksum.Crc.Division.{update-bound}
use pyxcp.Checksum.Sums.{
  Checked, ok, raised, not_implemented, adder, word_sum, padded_sum, sum_of, sum, slices,
  unpack_all, pad_to_word_size,
}
use pyxcp.Checksum.Algorithms.{Algorithm, algorithm_of, apply, crc32, algo, check}

reflected_words : all_below 0x10000 (λ r. ltb (reflect r 16) 0x10000) ≡ true
unfolding all_below reflect reflect_loop
reflected_words = refl

updates-bound : (c : Crc16) (r : ℕ) (frame : List ℕ) → r < 0x10000 → updates c r frame < 0x10000
unfolding updates
updates-bound c r [] p = p
updates-bound c r (ch ∷ frame) p = updates-bound c (update c r ch) frame (update-bound c r ch)

crc16-bound : (frame : List ℕ) → crc crc16 frame < 0x10000
unfolding crc reflect_out crc16
crc16-bound frame = rw bit_xor-zero (
    ltb→lt (reflect (updates crc16 0 frame) 16) 0x10000 (
      all_below_lem 0x10000 (λ r. ltb (reflect r 16) 0x10000) _ reflected_words
        (updates-bound crc16 0 frame (omega arith))))

crc16_ccitt-bound : (frame : List ℕ) → crc crc16_ccitt frame < 0x10000
unfolding crc reflect_out crc16_ccitt
crc16_ccitt-bound frame = rw bit_xor-zero (updates-bound crc16_ccitt 0xFFFF frame (omega arith))

mask_long : (x : ℕ) → bit_and x 0xFFFFFFFF < 2 ^ 32
mask_long x =
    let z : x ≡ x / 2 ^ 32 * 2 ^ 32 + x % 2 ^ 32 = omega arith in
    omega (
      arith,
      ap (λ y. bit_and y 0xFFFFFFFF) z ∙ bit_and_mask 32 (x / 2 ^ 32) (x % 2 ^ 32) (omega arith),
    )

-- An algorithm whose results have 32 bits.
abbrev Fits : Algorithm → Type 0
Fits f = (frame : List ℕ) (n : ℕ) → f frame ≡ ok n → n < 2 ^ 32

value : Checked ℕ → ℕ
value (ok n) = n
value (raised f) = 0

value-ok : {a b : ℕ} → ok a ≡ ok b → a ≡ b
unfolding value
value-ok e = ap value e

ok-Fits : (f : List ℕ → ℕ) → ((frame : List ℕ) → f frame < 2 ^ 32) → Fits (λ x. ok (f x))
ok-Fits f bound frame n e = omega (arith, bound frame, value-ok e)

adder-Fits : (m : ℕ) → 0 < m → m ≤ 2 ^ 32 → Fits (λ x. ok (adder m x))
unfolding adder
adder-Fits m h p = ok-Fits (adder m) (λ frame. omega (arith, mod-lt (sum frame) h))

sum_of-bound : (m n : ℕ) (r : Checked (List ℕ)) → 0 < m → sum_of m r ≡ ok n → n < m
unfolding sum_of
sum_of-bound m n (ok xs) h e = omega (arith, value-ok e, mod-lt (sum xs) h)
sum_of-bound m n (raised f) h e = absurd (cc)

word_sum-Fits : (m step : ℕ) → 0 < m → m ≤ 2 ^ 32 → Fits (word_sum m step)
unfolding word_sum padded_sum
word_sum-Fits m step h p frame n e = elim (Bool-cases (step == 2 || step == 4)) [
  | inl q ↦
      let padded = pad_to_word_size frame step (0 ∷ []) in
      omega (
        arith,
        sum_of-bound m n (unpack_all step (slices (length padded) step padded)) h
            (rw (q, if◌then◌else◌) at e),
      )
  | inr q ↦ let e' : raised not_implemented ≡ ok n = rw (q, if◌then◌else◌) at e in absurd cc
]

algo-Fits : (z : List ℕ → ℕ) → All (λ entry. Fits entry.1) (algo z)
unfolding algo crc32
algo-Fits z = (
  adder-Fits (2 ^ 8) (omega arith) (omega arith),
  (
    adder-Fits (2 ^ 16) (omega arith) (omega arith),
    (
      adder-Fits (2 ^ 32) (omega arith) (omega arith),
      (
        word_sum-Fits (2 ^ 16) 2 (omega arith) (omega arith),
        (
          word_sum-Fits (2 ^ 32) 2 (omega arith) (omega arith),
          (
            word_sum-Fits (2 ^ 32) 4 (omega arith) (omega arith),
            (
              ok-Fits (crc crc16) (λ x. omega (arith, crc16-bound x)),
              (
                ok-Fits (crc crc16_ccitt) (λ x. omega (arith, crc16_ccitt-bound x)),
                (ok-Fits (crc32 z) (λ x. mask_long (z x)), ((λ frame n e. absurd (cc)), tt)),
              ),
            ),
          ),
        ),
      ),
    ),
  ),
)

algorithm_of-Fits :
    (fs : List (String × Algorithm)) (name : String) (frame : List ℕ) (n : ℕ)
    → All (λ entry. Fits entry.1) fs
    → apply (algorithm_of fs name) frame ≡ ok n
    → n < 2 ^ 32
unfolding algorithm_of apply
algorithm_of-Fits [] name frame n p e = absurd (cc)
algorithm_of-Fits ((key, f) ∷ fs) name frame n (p, ps) e = elim (Bool-cases (str_eq key name)) [
  | inl q ↦ p frame n (rw (q, if◌then◌else◌) at e)
  | inr q ↦ algorithm_of-Fits fs name frame n ps (rw (q, if◌then◌else◌) at e)
]

-- Whatever the frame and the name, a checksum that is computed has 32 bits.
pub check-bound :
    (z : List ℕ → ℕ) (frame : List ℕ) (name : String) (n : ℕ)
    → check z frame name ≡ ok n
    → n < 2 ^ 32
unfolding check
check-bound z frame name n e = algorithm_of-Fits (algo z) name frame n (algo-Fits z) e
