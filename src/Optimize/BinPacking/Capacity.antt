-- ===== src/Optimize/BinPacking/Capacity.antt =====
-- No bin holds more than it has room for.
use pyxcp.Prelude.{
  ℕ, ◌+◌, ◌≤◌, ◌≡◌, refl, List, [], ◌∷◌, ◌++◌, arith, leb, All, Bool-cases, inl, inr, leb→le,
}
use pyxcp.Optimize.BinPacking.{Bin, new_bin, add, place}

module _ {A : Type 0} (length_of : A → ℕ) where
  abbrev pub total : List A → ℕ
  total [] = 0
  total (x ∷ xs) = length_of x + total xs

  total-append : (xs ys : List A) → total (xs ++ ys) ≡ total xs + total ys
  total-append [] ys = omega arith
  total-append (x ∷ xs) ys = omega (arith, total-append xs ys)

  -- What a bin holds and what is left make up its size.
  abbrev pub IsExact : Bin A → Type 0
  IsExact b = total b.entries + b.residual_capacity ≡ b.size

  add-IsExact :
      (item : A) (b : Bin A)
      → length_of item ≤ b.residual_capacity
      → IsExact b
      → IsExact (add length_of item b)
  unfolding add
  add-IsExact item b h e = omega (arith, total-append b.entries (item ∷ []))

  -- Each bin is exact, and has the size of later bins.
  abbrev pub Sized : ℕ → Bin A → Type 0
  Sized n b = IsExact b × (b.size ≡ n)

  -- The first bin has its own size.
  abbrev pub AreExact : ℕ → ℕ → List (Bin A) → Type 0
  AreExact first later [] = ⊥
  AreExact first later (b ∷ bs) = Sized first b × All (Sized later) bs

  add-Sized :
      (n : ℕ) (item : A) (b : Bin A)
      → length_of item ≤ b.residual_capacity
      → Sized n b
      → Sized n (add length_of item b)
  add-Sized n item b h s = (add-IsExact item b h s.0, unfold add in s.1)

  place-Sized :
      (n : ℕ) (item : A) (bs : List (Bin A))
      → length_of item ≤ n
      → All (Sized n) bs
      → All (Sized n) (place length_of n item bs)
  unfolding place
  place-Sized n item [] h s = (add-Sized n item (new_bin n) h (omega arith, refl), tt)
  place-Sized n item (b ∷ bs) h s = elim (Bool-cases (leb (length_of item) b.residual_capacity)) [
    | inl fits ↦ rw fits (add-Sized n item b (leb→le _ _ fits) s.0, s.1)
    | inr full ↦ rw full (s.0, place-Sized n item bs h s.1)
  ]

  pub place-AreExact :
      (first later : ℕ) (item : A) (bs : List (Bin A))
      → length_of item ≤ later
      → AreExact first later bs
      → AreExact first later (place length_of later item bs)
  unfolding place
  place-AreExact first later item [] h s = elim s [ ]
  place-AreExact first later item (b ∷ bs) h s =
      elim (Bool-cases (leb (length_of item) b.residual_capacity)) [
        | inl fits ↦ rw fits (add-Sized first item b (leb→le _ _ fits) s.0, s.1)
        | inr full ↦ rw full (s.0, place-Sized later item bs h s.1)
      ]
