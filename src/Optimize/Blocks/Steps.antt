-- ===== src/Optimize/Blocks/Steps.antt =====
-- The four ways in which the merging loop goes on with the next measurement.
use pyxcp.Prelude.{
  ℕ, ◌+◌, ◌-◌, ◌≡◌, refl, true, false, Option, List, ◌∷◌, ◌⊎◌, inl, inr, Bool-cases,
}
use pyxcp.Optimize.Blocks.{
  McObject, Section, new_section, extend, adjoins, starts_inside, is_truthy, Bounds, switch_bound,
  within, merge,
}

-- The length that joining would give.
abbrev pub joined_length : Section → McObject → ℕ
joined_length last x = x.address + x.length - last.address

-- A measurement is joined without a bound, or below the bound then in force.
abbrev pub Joins : Option ℕ → Bounds → Bounds → Section → McObject → Type 0
Joins initial b b' last x =
    ((is_truthy b.upper_bound ≡ false) × (b' ≡ b))
    ⊎ ((is_truthy b.upper_bound ≡ true)
        × (b' ≡ switch_bound initial b)
        × (within (joined_length last x) b'.upper_bound ≡ true))

pub merge-cases :
    (P : List Section → Type 0) (initial : Option ℕ) (b : Bounds) (last : Section) (x : McObject)
    (xs : List McObject)
    → (adjoins last x ≡ false → P (last ∷ merge initial b (new_section x) xs))
    → (adjoins last x ≡ true → starts_inside last x ≡ true → P (merge initial b last xs))
    → (adjoins last x ≡ true
        → starts_inside last x ≡ false
        → (b' : Bounds) → Joins initial b b' last x
        → P (merge initial b' (extend last x) xs))
    → (adjoins last x ≡ true
        → starts_inside last x ≡ false
        → is_truthy b.upper_bound ≡ true
        → P (last ∷ merge initial (switch_bound initial b) (new_section x) xs))
    → P (merge initial b last (x ∷ xs))
unfolding merge
merge-cases P initial b last x xs far inside joined full = elim (Bool-cases (adjoins last x)) [
  | inr n ↦ rw n (far n)
  | inl y ↦ elim (Bool-cases (starts_inside last x)) [
    | inl i ↦ rw (y, i) (inside y i)
    | inr o ↦ elim (Bool-cases (is_truthy b.upper_bound)) [
      | inr free ↦ rw (y, o, free) (joined y o b (inl (free, refl)))
      | inl bound ↦
          elim (Bool-cases (within (joined_length last x) (switch_bound initial b).upper_bound)) [
            | inl fits ↦
                rw (y, o, bound, fits)
                  (joined y o (switch_bound initial b) (inr (bound, refl, fits)))
            | inr over ↦ rw (y, o, bound, over) (full y o bound)
          ]
    ]
  ]
]
