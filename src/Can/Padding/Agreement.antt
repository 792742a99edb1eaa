-- ===== src/Can/Padding/Agreement.antt =====
-- The two computations of a frame length agree (pyxcp/transport/can.py: set_DLC, pad_frame).
use pyxcp.Prelude.{
  ℕ, ◌≤◌, ◌<◌, ◌≡◌, refl, sym, ap, ◌∙◌, ◌⊎◌, Bool, true, false, Option, length, lt→not_leb,
  not_leb→lt, List, [], ◌∷◌, All, none, Bool-cases, inl, inr, ltb→lt, lt→ltb, leb→le, le→leb, ltb,
  leb, if◌then◌else◌, arith,
}
use pyxcp.Can.Padding.{
  max_dlc_classic, can_fd_dlcs, actual_length, fill, pad_frame, first_fitting, set_dlc,
}
use pyxcp.Can.Padding.Dlc.{Padded, pad_frame-Padded, next, get_elem?-bisect_left}

first_fitting-next : (xs : List ℕ) (n : ℕ) → first_fitting xs n ≡ next xs n
unfolding first_fitting next
first_fitting-next [] n = refl
first_fitting-next (d ∷ ds) n = elim (Bool-cases (ltb d n)) [
  | inl e ↦
      let z : leb n d ≡ false = elim (Bool-cases (leb n d)) [
        | inl h ↦ absurd (omega (arith, ltb→lt d n e, leb→le n d h))
        | inr h ↦ h
      ] in
      rw (e, z, if◌then◌else◌) (first_fitting-next ds n)
  | inr e ↦
      let no : d < n → true ≡ false = λ p. sym (lt→ltb d n p) ∙ e in
      let z : leb n d ≡ true = le→leb n d (grind (arith, no)) in rw (e, z, if◌then◌else◌)
]

next-none_above : (xs : List ℕ) (n : ℕ) → All (λ a. a < n) xs → next xs n ≡ none
unfolding next
next-none_above [] n ps = refl
next-none_above (a ∷ as') n (p, ps) = rw (lt→ltb a n p, if◌then◌else◌) (next-none_above as' n ps)

All-above : (xs : List ℕ) (k n : ℕ) → k < n → All (λ a. a ≤ k) xs → All (λ a. a < n) xs
All-above [] k n p qs = qs
All-above (a ∷ as') k n p (q, qs) = (omega arith, All-above as' k n p qs)

dlcs-bound : All (λ a. a ≤ 64) can_fd_dlcs
dlcs-bound = (
  omega arith,
  (omega arith, (omega arith, (omega arith, (omega arith, (omega arith, (omega arith, tt)))))),
)

next-none : (n : ℕ) → 64 < n → next can_fd_dlcs n ≡ none
next-none n p = next-none_above can_fd_dlcs n (All-above can_fd_dlcs 64 n p dlcs-bound)

set_dlc-actual_length : (n : ℕ) → set_dlc n ≡ actual_length n false
unfolding set_dlc actual_length
set_dlc-actual_length n = elim (Bool-cases (leb n max_dlc_classic)) [
  | inl e ↦ rw (e, if◌then◌else◌)
  | inr e ↦ elim (Bool-cases (leb n 64)) [
    | inl f ↦
        rw (e, f, if◌then◌else◌, get_elem?-bisect_left can_fd_dlcs n)
          (first_fitting-next can_fd_dlcs n)
    | inr f ↦
        let no : n ≤ 64 → true ≡ false = λ p. sym (le→leb n 64 p) ∙ f in
        rw (e, f, if◌then◌else◌, get_elem?-bisect_left can_fd_dlcs n)
          (sym (next-none n (grind (arith, no))))
  ]
]

actual_length-none : (n : ℕ) (pad : Bool) → 64 < n → actual_length n pad ≡ none
unfolding actual_length
actual_length-none n pad p =
    rw (lt→not_leb 8 n (omega arith), if◌then◌else◌, get_elem?-bisect_left can_fd_dlcs n)
      (next-none n p)

abbrev pub PadResult : List ℕ → Bool → Option (List ℕ) → Type 0
PadResult frame pad o =
    ((length frame ≤ 64) × Padded frame pad o) ⊎ ((64 < length frame) × (o ≡ none))

pad_frame-PadResult :
    (frame : List ℕ) (pad : Bool) (v : ℕ) → PadResult frame pad (pad_frame frame pad v)
unfolding pad_frame fill
pad_frame-PadResult frame pad v = elim (Bool-cases (leb (length frame) 64)) [
  | inl e ↦ let p = leb→le (length frame) 64 e in inl (p, pad_frame-Padded frame pad v p)
  | inr e ↦
      let p = not_leb→lt (length frame) 64 e in
      inr (p, ap (fill frame v) (actual_length-none (length frame) pad p))
]

-- A frame of at most 64 bytes is padded: the frame is in front, and the length is the least
-- length of a CAN or CAN FD frame that holds it, from 8 on if padding is asked for. A longer frame
-- fails. For a frame of any length, set_DLC gives the length that it is padded to when no padding
-- is asked for, and fails exactly where the padding does.
pub pad_frame-set_dlc :
    (frame : List ℕ) (pad : Bool) (padding_value : ℕ)
    → PadResult frame pad (pad_frame frame pad padding_value)
      × (set_dlc (length frame) ≡ actual_length (length frame) false)
pad_frame-set_dlc frame pad v =
    (pad_frame-PadResult frame pad v, set_dlc-actual_length (length frame))
