-- ===== src/Checksum/Sums/Padding.antt =====
-- What the padding of a frame promises (pyxcp/checksum.py: pad_to_word_size).
use pyxcp.Prelude.{
  ℕ, zero, suc, ◌+◌, ◌-◌, ◌%◌, ◌<◌, ◌≡◌, refl, sym, ap, ◌∙◌, true, false, List, [], ◌∷◌, ◌++◌,
  length, length-append, take, take-length, take-length-append, ◌==◌, ==_iff, Bool-cases, inl, inr,
  if◌then◌else◌, arith,
}
use native.Mathlib.Nat.{mod-lt, mod-add-mod, mod_self}
use pyxcp.Checksum.Sums.{times_bytes, pad_to_word_size}

length-times_bytes : (n p : ℕ) → length (times_bytes n (p ∷ [])) ≡ n
length-times_bytes zero p = refl
length-times_bytes (suc n) p = omega (arith, length-times_bytes n p)

-- The code pads to whole words, keeps the frame in front, and adds less than a word.
abbrev pub Padded : List ℕ → ℕ → List ℕ → Type 0
Padded frame w padded =
    (length padded % w ≡ 0)
    × (take (length frame) padded ≡ frame)
    × (length padded < length frame + w)

mod-fill : (n w : ℕ) → 0 < w → (n + (w - n % w)) % w ≡ 0
mod-fill n w h =
    let z : n % w + (w - n % w) ≡ w = omega (arith, mod-lt n h) in
    sym (mod-add-mod n w (w - n % w)) ∙ ap (λ k. k % w) z ∙ mod_self w

pub pad_to_word_size-Padded :
    (frame : List ℕ) (w p : ℕ) → 0 < w → Padded frame w (pad_to_word_size frame w (p ∷ []))
unfolding pad_to_word_size
pad_to_word_size-Padded frame w p h =
    let n = length frame in
    let zeros = times_bytes (w - n % w) (p ∷ []) in
    let len : length (frame ++ zeros) ≡ n + (w - n % w) =
      length-append frame zeros ∙ ap (λ k. n + k) (length-times_bytes (w - n % w) p) in
    elim (Bool-cases (w - n % w == w)) [
      | inl e ↦
          let z = (==_iff _ _).0 e in
          rw (e, if◌then◌else◌) (omega (arith, z, mod-lt n h), take-length frame, omega arith)
      | inr e ↦
          let z : (w - n % w ≡ w) → (true ≡ false) = λ q. sym ((==_iff _ _).1 q) ∙ e in
          rw (e, if◌then◌else◌)
            (
              ap (λ k. k % w) len ∙ mod-fill n w h,
              take-length-append frame zeros,
              grind (arith, len, z),
            )
    ]
