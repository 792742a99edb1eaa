-- ===== src/Checksum/Sums/Words.antt =====
-- The word sums against positional notation (pyxcp/checksum.py: wordSum).
use pyxcp.Prelude.{
  ℕ, zero, suc, ◌+◌, ◌-◌, ◌*◌, ◌%◌, ◌^◌, ◌≤◌, ◌<◌, ◌≡◌, refl, sym, ap, ◌∙◌, List, [], ◌∷◌, ◌++◌,
  length, length-take, length-drop, take-append-drop, take, drop, ◌==◌, ==_iff, Bool-cases, inl,
  inr, if◌then◌else◌, ◌⊎◌, arith, some,
}
use native.Mathlib.Nat.{mod-eq_of_lt, mod-eq-sub-mod}
use pyxcp.Checksum.Sums.{
  ok, times_bytes, little_endian, unpack_word, unpack_all, slices, sum, sum_of, padded_sum,
  pad_to_word_size, word_sum,
}
use pyxcp.Checksum.Sums.Padding.{pad_to_word_size-Padded}

-- The reference: byte i of the frame counts 256 ^ (i % step); `j` is the phase of the first byte.
unfoldable pub positional : ℕ → ℕ → List ℕ → ℕ
positional step j [] = 0
positional step j (b ∷ bs) =
    let rest = positional step (if suc j == step then 0 else suc j) bs in b * 256 ^ j + rest

pow-suc : (j : ℕ) → 256 ^ suc j ≡ 256 ^ j * 256
pow-suc j = grind arith

weigh : (x b y s : ℕ) → b * x + (x * 256 * y + s) ≡ x * (b + 256 * y) + s
weigh x b y s = grind arith

positional-word :
    (step j : ℕ) (c r : List ℕ)
    → 0 < length c
    → length c + j ≡ step
    → positional step j (c ++ r) ≡ 256 ^ j * little_endian c + positional step 0 r
unfolding positional little_endian
positional-word step j [] r p e = absurd (omega arith)
positional-word step j (b ∷ []) r p e =
    let z : suc j ≡ step = omega arith in
    rw ((==_iff (suc j) step).1 z, if◌then◌else◌) (grind arith)
positional-word step j (b ∷ d ∷ c) r p e = elim (Bool-cases (suc j == step)) [
  | inl q ↦ absurd (omega (arith, (==_iff (suc j) step).0 q))
  | inr q ↦
      rw (q, if◌then◌else◌)
        (rw (positional-word step (suc j) (d ∷ c) r (omega arith) (omega arith), pow-suc j)
          (weigh (256 ^ j) b _ _))
]

positional-zeros : (step n j : ℕ) → positional step j (times_bytes n (0 ∷ [])) ≡ 0
unfolding positional
positional-zeros step zero j = refl
positional-zeros step (suc n) j =
    omega (arith, positional-zeros step n (if suc j == step then 0 else suc j))

positional-append :
    (step n j : ℕ) (frame : List ℕ)
    → positional step j (frame ++ times_bytes n (0 ∷ [])) ≡ positional step j frame
unfolding positional
positional-append step n j [] = positional-zeros step n j
positional-append step n j (b ∷ frame) =
    ap (λ k. b * 256 ^ j + k) (positional-append step n (if suc j == step then 0 else suc j) frame)

positional-pad :
    (step : ℕ) (frame : List ℕ)
    → positional step 0 (pad_to_word_size frame step (0 ∷ [])) ≡ positional step 0 frame
unfolding pad_to_word_size
positional-pad step frame = elim (Bool-cases (step - length frame % step == step)) [
  | inl e ↦ rw (e, if◌then◌else◌)
  | inr e ↦ rw (e, if◌then◌else◌) (positional-append step (step - length frame % step) 0 frame)
]

-- How a frame of whole words is read: every slice unpacks, and the words add up.
abbrev Reads : ℕ → ℕ → List ℕ → Type 0
Reads step fuel frame =
    (xs : List ℕ) × (unpack_all step (slices fuel step frame) ≡ ok xs)
    × (sum xs ≡ positional step 0 frame)

unpack_word-whole :
    (step : ℕ) (c : List ℕ) → length c ≡ step → unpack_word step c ≡ some (little_endian c)
unfolding unpack_word
unpack_word-whole step c e = rw ((==_iff (length c) step).1 e, if◌then◌else◌)

whole : (b : ℕ) (r : List ℕ) (step : ℕ) → length (b ∷ r) % step ≡ 0 → step ≤ length (b ∷ r)
whole b r step e =
    let small : length (b ∷ r) < step → length (b ∷ r) % step ≡ length (b ∷ r) =
      λ p. mod-eq_of_lt p in
    grind (arith, small, e)

Reads-cons :
    (step fuel b : ℕ) (r : List ℕ)
    → 0 < step
    → length (take step (b ∷ r)) ≡ step
    → Reads step fuel (drop step (b ∷ r))
    → Reads step (suc fuel) (b ∷ r)
unfolding slices unpack_all
Reads-cons step fuel b r h e (xs, got, total) =
    let c = take step (b ∷ r) in
    let z : positional step 0 (c ++ drop step (b ∷ r))
        ≡ little_endian c + positional step 0 (drop step (b ∷ r)) =
      omega (arith, positional-word step 0 c (drop step (b ∷ r)) (omega arith) (omega arith)) in
    (
      little_endian c ∷ xs,
      rw (unpack_word-whole step c e, got),
      ap (λ k. little_endian c + k) total
          ∙ sym z
          ∙ ap (positional step 0) (take-append-drop step (b ∷ r)),
    )

slices-Reads :
    (step fuel : ℕ) (frame : List ℕ)
    → 0 < step
    → length frame % step ≡ 0
    → length frame ≤ fuel
    → Reads step fuel frame
unfolding slices unpack_all positional
slices-Reads step zero [] h e p = ([], refl, refl)
slices-Reads step zero (b ∷ r) h e p = absurd (omega arith)
slices-Reads step (suc fuel) [] h e p = ([], refl, refl)
slices-Reads step (suc fuel) (b ∷ r) h e p =
    let long = whole b r step e in
    let len = length-drop step (b ∷ r) in
    Reads-cons step fuel b r h (omega (arith, length-take step (b ∷ r))) (
      slices-Reads step fuel (drop step (b ∷ r)) h
        (ap (λ n. n % step) len ∙ sym (mod-eq-sub-mod long) ∙ e) (omega arith))

padded_sum-positional :
    (m step : ℕ) (frame : List ℕ)
    → 0 < step
    → length frame % step ≡ 0
    → padded_sum m step frame ≡ ok (positional step 0 frame % m)
unfolding padded_sum sum_of
padded_sum-positional m step frame h e =
    let (xs, got, total) = slices-Reads step (length frame) frame h e (omega arith) in
    rw got (ap (λ k. ok (k % m)) total)

padded_word-positional :
    (m step : ℕ) (frame : List ℕ)
    → 0 < step
    → padded_sum m step (pad_to_word_size frame step (0 ∷ [])) ≡ ok (positional step 0 frame % m)
padded_word-positional m step frame h =
    padded_sum-positional m step _ h (pad_to_word_size-Padded frame step 0 h).0
    ∙ ap (λ k. ok (k % m)) (positional-pad step frame)

-- For words and double words, every frame has a sum: the weighted sum of its bytes, modulo the
-- modulus, whatever the length of the frame.
pub word_sum-positional :
    (m step : ℕ) (frame : List ℕ)
    → (step ≡ 2) ⊎ (step ≡ 4)
    → word_sum m step frame ≡ ok (positional step 0 frame % m)
unfolding word_sum
word_sum-positional m step frame (inl e) = rw e (padded_word-positional m 2 frame (omega arith))
word_sum-positional m step frame (inr e) = rw e (padded_word-positional m 4 frame (omega arith))
