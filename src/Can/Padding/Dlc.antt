-- ===== src/Can/Padding/Dlc.antt =====
-- A padded frame has the next length that a frame can have (pyxcp/transport/can.py: pad_frame).
use pyxcp.Prelude.{
  ℕ, ◌-◌, ◌≤◌, ◌<◌, max, ◌≡◌, refl, sym, ap, ◌∙◌, Bool, true, false, List, [], ◌∷◌, ◌++◌, Option,
  none, some, ◌⊎◌, inl, inr, Bool-cases, ltb→lt, lt→ltb, leb→le, le→leb, ltb, leb, length,
  get_elem?, take, take-length, replicate, length-append, length-replicate, take-length-append,
  if◌then◌else◌, arith,
}
use pyxcp.Can.Padding.{max_dlc_classic, can_fd_dlcs, bisect_left, actual_length, fill, pad_frame}

-- The lengths of a frame: up to 8 bytes, and the discrete ones of CAN FD.
abbrev pub Dlc : ℕ → Type 0
Dlc n = (n ≤ 8) ⊎ (n ≡ 12) ⊎ (n ≡ 16) ⊎ (n ≡ 20) ⊎ (n ≡ 24) ⊎ (n ≡ 32) ⊎ (n ≡ 48) ⊎ (n ≡ 64)

-- The least such length from n on.
abbrev pub Next : ℕ → ℕ → Type 0
Next n m = Dlc m × (n ≤ m) × ((m' : ℕ) → Dlc m' → n ≤ m' → m ≤ m')

-- The item that `bisect_left` points at.
unfoldable pub next : List ℕ → ℕ → Option ℕ
next [] x = none
next (a ∷ as') x = if ltb a x then next as' x else some a

pub get_elem?-bisect_left : (xs : List ℕ) (x : ℕ) → get_elem? xs (bisect_left xs x) ≡ next xs x
unfolding bisect_left next
get_elem?-bisect_left [] x = refl
get_elem?-bisect_left (a ∷ as') x = elim (Bool-cases (ltb a x)) [
  | inl e ↦ rw (e, if◌then◌else◌) (get_elem?-bisect_left as' x)
  | inr e ↦ rw (e, if◌then◌else◌)
]

pub next-cases :
    (P : Option ℕ → Type 0) (a : ℕ) (as' : List ℕ) (x : ℕ)
    → (a < x → P (next as' x))
    → (x ≤ a → P (some a))
    → P (next (a ∷ as') x)
unfolding next
next-cases P a as' x more here = elim (Bool-cases (ltb a x)) [
  | inl e ↦ rw (e, if◌then◌else◌) (more (ltb→lt a x e))
  | inr e ↦
      let small : a < x → true ≡ false = λ p. sym (lt→ltb a x p) ∙ e in
      rw (e, if◌then◌else◌) (here (grind (arith, small)))
]

abbrev Found : ℕ → Option ℕ → Type 0
Found n o = (m : ℕ) × (o ≡ some m) × Next n m

next-Found : (n : ℕ) → 8 < n → n ≤ 64 → Found n (next can_fd_dlcs n)
next-Found n p q =
    next-cases (Found n) 12 (16 ∷ 20 ∷ 24 ∷ 32 ∷ 48 ∷ 64 ∷ []) n
      (λ p1.
        next-cases (Found n) 16 (20 ∷ 24 ∷ 32 ∷ 48 ∷ 64 ∷ []) n
          (λ p2.
            next-cases (Found n) 20 (24 ∷ 32 ∷ 48 ∷ 64 ∷ []) n
              (λ p3.
                next-cases (Found n) 24 (32 ∷ 48 ∷ 64 ∷ []) n
                  (λ p4.
                    next-cases (Found n) 32 (48 ∷ 64 ∷ []) n
                      (λ p5.
                        next-cases (Found n) 48 (64 ∷ []) n
                          (λ p6.
                            next-cases (Found n) 64 [] n (λ p7. absurd (omega arith))
                              (λ h. (64, refl, (grind arith, h, λ m' d l. grind arith))))
                          (λ h. (48, refl, (grind arith, h, λ m' d l. grind arith))))
                      (λ h. (32, refl, (grind arith, h, λ m' d l. grind arith))))
                  (λ h. (24, refl, (grind arith, h, λ m' d l. grind arith))))
              (λ h. (20, refl, (grind arith, h, λ m' d l. grind arith))))
          (λ h. (16, refl, (grind arith, h, λ m' d l. grind arith))))
      (λ h. (12, refl, (grind arith, h, λ m' d l. grind arith)))

-- The least length that the frame may be padded to: 8 bytes when padding is asked for.
abbrev pub least : ℕ → Bool → ℕ
least n pad = max n (if pad then 8 else 0)

classic :
    (n : ℕ) (pad : Bool)
    → n ≤ 8
    → (m : ℕ) × (some (if pad then max_dlc_classic else n) ≡ some m) × Next (least n pad) m
classic n true h = (8, refl, (inl (omega arith), omega arith, λ m' d l. omega arith))
classic n false h = (n, refl, (inl (omega arith), omega arith, λ m' d l. omega arith))

least-long : (n : ℕ) (pad : Bool) → 8 < n → least n pad ≡ n
least-long n true h = omega arith
least-long n false h = omega arith

actual_length-Next :
    (n : ℕ) (pad : Bool) → n ≤ 64 → (m : ℕ) × (actual_length n pad ≡ some m) × Next (least n pad) m
unfolding actual_length
actual_length-Next n pad p = elim (Bool-cases (leb n max_dlc_classic)) [
  | inl e ↦ let small : n ≤ 8 = leb→le n 8 e in rw (e, if◌then◌else◌) (classic n pad small)
  | inr e ↦
      let no : n ≤ 8 → true ≡ false = λ h. sym (le→leb n 8 h) ∙ e in
      let long : 8 < n = grind (arith, no) in
      let z : least n pad ≡ n = least-long n pad long in
      rw (e, if◌then◌else◌, get_elem?-bisect_left can_fd_dlcs n, z) (next-Found n long p)
]

-- The frame in front, and so many bytes in all.
abbrev Filled : List ℕ → Option (List ℕ) → ℕ → Type 0
Filled frame o m = (g : List ℕ) × (o ≡ some g) × (take (length frame) g ≡ frame) × (length g ≡ m)

fill-Filled : (frame : List ℕ) (v m : ℕ) → length frame ≤ m → Filled frame (fill frame v (some m)) m
unfolding fill
fill-Filled frame v m p = elim (Bool-cases (ltb (length frame) m)) [
  | inl e ↦
      let tail = replicate (m - length frame) v in
      rw (e, if◌then◌else◌)
        (
          frame ++ tail,
          refl,
          take-length-append frame tail,
          omega (arith, length-append frame tail, length-replicate (m - length frame) v),
        )
  | inr e ↦
      let no : length frame < m → true ≡ false = λ h. sym (lt→ltb _ _ h) ∙ e in
      rw (e, if◌then◌else◌) (frame, refl, take-length frame, grind (arith, no))
]

abbrev pub Padded : List ℕ → Bool → Option (List ℕ) → Type 0
Padded frame pad o =
    (g : List ℕ) × (o ≡ some g)
    × (take (length frame) g ≡ frame)
    × Next (least (length frame) pad) (length g)

pub pad_frame-Padded :
    (frame : List ℕ) (pad : Bool) (padding_value : ℕ)
    → length frame ≤ 64
    → Padded frame pad (pad_frame frame pad padding_value)
unfolding pad_frame
pad_frame-Padded frame pad v p =
    let (m, e, n) = actual_length-Next (length frame) pad p in
    let (g, made, kept, len) = fill-Filled frame v m (omega (arith, n.1)) in
    (g, ap (fill frame v) e ∙ made, kept, rw len n)
