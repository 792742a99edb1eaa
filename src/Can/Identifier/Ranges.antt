-- ===== src/Can/Identifier/Ranges.antt =====
-- Which identifiers exist, and that they keep the identifier of the bus
-- (pyxcp/transport/can.py: Identifier).
use pyxcp.Prelude.{
  ℕ, ◌+◌, ◌-◌, ◌*◌, ◌/◌, ◌%◌, ◌^◌, ◌≤◌, ◌<◌, ◌≡◌, refl, sym, ap, ◌∙◌, Bool, true, false, Option,
  none, some, Bool-cases, inl, inr, ltb, lt→ltb, ltb→lt, leb, leb→le, not_leb→lt, ◌==◌, ==_iff,
  if◌then◌else◌, bit_and, bit_or, arith,
}
use pyxcp.Prelude.Bits.{bit_and_split, bit_or_split, bit_and_mask, bit_and-zero, bit_or-zero}
use pyxcp.Can.Identifier.{
  Identifier, can_extended_id, max_11_bit_identifier, max_29_bit_identifier, is_extended_identifier,
  strip_identifier, checked, new_identifier, make_identifier,
}

and-extended : (x : ℕ) → bit_and x 0x80000000 ≡ x / 2 ^ 31 % 2 * 2 ^ 31
and-extended x =
    let z : x ≡ x / 2 ^ 31 * 2 ^ 31 + x % 2 ^ 31 = omega arith in
    let q = x / 2 ^ 31 in
    let y : q ≡ q / 2 * 2 ^ 1 + q % 2 = omega arith in
    ap (λ v. bit_and v 0x80000000) z
    ∙ bit_and_split 31 q 1 (x % 2 ^ 31) 0 (omega arith) (omega arith)
    ∙ omega (
      arith,
      bit_and-zero (x % 2 ^ 31),
      ap (λ v. bit_and v 1) y ∙ bit_and_mask 1 (q / 2) (q % 2) (omega arith),
    )

and-top : (x : ℕ) → bit_and x 0xE0000000 ≡ x / 2 ^ 29 % 8 * 2 ^ 29
and-top x =
    let z : x ≡ x / 2 ^ 29 * 2 ^ 29 + x % 2 ^ 29 = omega arith in
    let q = x / 2 ^ 29 in
    let y : q ≡ q / 8 * 2 ^ 3 + q % 8 = omega arith in
    ap (λ v. bit_and v 0xE0000000) z
    ∙ bit_and_split 29 q 7 (x % 2 ^ 29) 0 (omega arith) (omega arith)
    ∙ omega (
      arith,
      bit_and-zero (x % 2 ^ 29),
      ap (λ v. bit_and v 7) y ∙ bit_and_mask 3 (q / 8) (q % 8) (omega arith),
    )

or-extended : (x : ℕ) → x < 2 ^ 31 → bit_or x 0x80000000 ≡ x + 0x80000000
or-extended x p =
    let z : x ≡ 0 * 2 ^ 31 + x = omega arith in
    ap (λ v. bit_or v 0x80000000) z
    ∙ bit_or_split 31 0 1 x 0 p (omega arith)
    ∙ omega (arith, bit_or-zero x)

strip_identifier_lem : (x : ℕ) → strip_identifier x ≡ x - x / 2 ^ 29 % 8 * 2 ^ 29
unfolding strip_identifier
strip_identifier_lem x = ap (λ v. x - v) (and-top x)

is_extended-low : (x : ℕ) → x < 2 ^ 31 → is_extended_identifier x ≡ false
unfolding is_extended_identifier
is_extended-low x p = elim (Bool-cases (bit_and x can_extended_id == can_extended_id)) [
  | inl e ↦ absurd (omega (arith, and-extended x, (==_iff _ _).0 e))
  | inr e ↦ e
]

is_extended-high : (x : ℕ) → 2 ^ 31 ≤ x → x < 2 ^ 32 → is_extended_identifier x ≡ true
unfolding is_extended_identifier
is_extended-high x p q = (==_iff _ _).1 (omega (arith, and-extended x))

abbrev pub max_identifier : Bool → ℕ
max_identifier extended = if extended then max_29_bit_identifier else max_11_bit_identifier

checked-some :
    (raw_id id : ℕ) (extended : Bool)
    → id ≤ max_identifier extended
    → checked raw_id id extended
      ≡ some (record { raw_id = raw_id; id = id; is_extended = extended })
unfolding checked
checked-some raw_id id extended p = elim (Bool-cases (ltb (max_identifier extended) id)) [
  | inl e ↦ absurd (omega (arith, ltb→lt _ _ e, p))
  | inr e ↦ rw (e, if◌then◌else◌)
]

InRange : Option Identifier → Type 0
InRange none = Unit
InRange (some i) = i.id ≤ max_identifier i.is_extended

checked-InRange : (raw_id id : ℕ) (extended : Bool) → InRange (checked raw_id id extended)
unfolding checked InRange
checked-InRange raw_id id extended = elim (Bool-cases (ltb (max_identifier extended) id)) [
  | inl q ↦ rw (q, if◌then◌else◌) tt
  | inr q ↦
      let small : max_identifier extended < id → true ≡ false = λ p. sym (lt→ltb _ _ p) ∙ q in
      rw (q, if◌then◌else◌) (grind (arith, small))
]

-- Every Identifier that is made fits the kind of frame that it is for.
new_identifier-InRange :
    (raw_id : ℕ) (i : Identifier)
    → new_identifier raw_id ≡ some i
    → i.id ≤ max_identifier i.is_extended
unfolding new_identifier InRange
new_identifier-InRange raw_id i e =
    rw e at (checked-InRange raw_id (strip_identifier raw_id) (is_extended_identifier raw_id))

new_identifier-standard :
    (x : ℕ)
    → x ≤ max_11_bit_identifier
    → new_identifier x ≡ some (record { raw_id = x; id = x; is_extended = false })
unfolding new_identifier
new_identifier-standard x p =
    let z : strip_identifier x ≡ x = omega (arith, strip_identifier_lem x) in
    rw (is_extended-low x (omega arith), z) (checked-some x x false p)

new_identifier-extended :
    (x : ℕ)
    → 2 ^ 31 ≤ x
    → x < 2 ^ 32
    → new_identifier x ≡ some (record { raw_id = x; id = x % 2 ^ 29; is_extended = true })
unfolding new_identifier
new_identifier-extended x p q =
    let z : strip_identifier x ≡ x % 2 ^ 29 = omega (arith, strip_identifier_lem x) in
    rw (is_extended-high x p q, z) (checked-some x (x % 2 ^ 29) true (omega arith))

new_identifier-low :
    (x : ℕ)
    → x < 2 ^ 31
    → new_identifier x ≡ (
        if ltb max_11_bit_identifier (x % 2 ^ 29)
        then none
        else some (record { raw_id = x; id = x % 2 ^ 29; is_extended = false }))
unfolding new_identifier checked
new_identifier-low x p =
    let z : strip_identifier x ≡ x % 2 ^ 29 = omega (arith, strip_identifier_lem x) in
    rw (is_extended-low x (omega arith), z) refl

-- Every raw identifier of 32 bits is decided by its low 29 bits and the extended bit: with that
-- bit it is never out of range, and without it exactly when the low bits are more than 11 bits
-- allow. Bits 29 and 30 are dropped.
pub new_identifier-total :
    (x : ℕ)
    → x < 2 ^ 32
    → new_identifier x ≡ (
        if leb (2 ^ 31) x
        then some (record { raw_id = x; id = x % 2 ^ 29; is_extended = true })
        else if ltb max_11_bit_identifier (x % 2 ^ 29)
        then none
        else some (record { raw_id = x; id = x % 2 ^ 29; is_extended = false }))
new_identifier-total x q = elim (Bool-cases (leb (2 ^ 31) x)) [
  | inl e ↦ rw (e, if◌then◌else◌) (new_identifier-extended x (leb→le (2 ^ 31) x e) q)
  | inr e ↦ rw (e, if◌then◌else◌) (new_identifier-low x (not_leb→lt (2 ^ 31) x e))
]

abbrev pub Made : Option Identifier → ℕ → Bool → Type 0
Made made id extended =
    (i : Identifier) × (made ≡ some i) × (i.id ≡ id) × (i.is_extended ≡ extended)

-- An identifier of the bus that has 11 or, when extended, 29 bits gives an Identifier with the
-- same number and the same kind.
pub make_identifier-Made :
    (id : ℕ) (extended : Bool)
    → id ≤ max_identifier extended
    → Made (make_identifier id extended) id extended
unfolding make_identifier
make_identifier-Made id true p =
    let z = or-extended id (omega (arith, p)) in
    (
      _,
      ap new_identifier z
          ∙ new_identifier-extended (id + 0x80000000) (omega arith) (omega (arith, p)),
      omega (arith, p),
      refl,
    )
make_identifier-Made id false p = (_, new_identifier-standard id p, refl, refl)
