-- ===== src/Can/Filter/Listed.antt =====
-- The filters made of identifiers let exactly those identifiers through
-- (pyxcp/transport/can.py: SoftwareFilter, PythonCanWrapper.connect).
use pyxcp.Prelude.{
  ℕ, ◌-◌, ◌^◌, ◌≤◌, ◌<◌, ◌≡◌, refl, sym, ap, ◌∙◌, Bool, true, false, ◌&&◌, List, [], ◌∷◌, map, All,
  Bool-cases, inl, inr, ◌==◌, ==_iff, if◌then◌else◌, bit_and, bit_xor, arith,
}
use pyxcp.Prelude.Bits.{bit_and_mask, bit_xor-bound, bit_xor_iff}
use pyxcp.Can.Identifier.{Identifier}
use pyxcp.Can.Identifier.Ranges.{max_identifier}
use pyxcp.Can.Filter.{
  Message, new_software_filter, set_filters, bool_eq, matches, any_matches, accept_by, accept,
  create_filter_from_id, can_filters,
}

-- The reference: the message has the number and the kind of one of the identifiers.
unfoldable pub listed : List Identifier → Message → Bool
listed [] msg = false
listed (i ∷ is) msg =
    if bool_eq i.is_extended msg.is_extended_id && (i.id == msg.arbitration_id)
    then true
    else listed is msg

-- Under a mask that covers both numbers, no difference is left exactly for equal numbers.
masked_eq :
    (k a b : ℕ) → a < 2 ^ k → b < 2 ^ k → (bit_and (bit_xor a b) (2 ^ k - 1) == 0) ≡ (a == b)
masked_eq k a b p q =
    let z : bit_and (bit_xor a b) (2 ^ k - 1) ≡ bit_xor a b =
      ap (λ v. bit_and v (2 ^ k - 1)) (omega arith)
      ∙ bit_and_mask k 0 (bit_xor a b) (bit_xor-bound k a b p q) in
    rw z (elim (Bool-cases (a == b)) [
      | inl e ↦ rw e ((==_iff (bit_xor a b) 0).1 ((bit_xor_iff a b).1 ((==_iff a b).0 e)))
      | inr e ↦ elim (Bool-cases (bit_xor a b == 0)) [
        | inl e' ↦
            absurd (cc ((==_iff a b).1 ((bit_xor_iff a b).0 ((==_iff (bit_xor a b) 0).0 e')), e))
        | inr e' ↦ e' ∙ sym e
      ]
    ])

abbrev pub Fits : Identifier → Type 0
Fits i = i.id ≤ max_identifier i.is_extended

-- The identifier of a message has the length that its kind allows.
abbrev pub OnBus : Message → Type 0
OnBus msg = msg.arbitration_id ≤ max_identifier msg.is_extended_id

matches-create_filter :
    (raw_id id arbitration_id : ℕ) (extended is_extended_id : Bool)
    → id ≤ max_identifier extended
    → arbitration_id ≤ max_identifier is_extended_id
    → matches
        (create_filter_from_id (record { raw_id = raw_id; id = id; is_extended = extended }))
        (record { arbitration_id = arbitration_id; is_extended_id = is_extended_id })
      ≡ (bool_eq extended is_extended_id && (id == arbitration_id))
unfolding matches create_filter_from_id
matches-create_filter raw_id id arb true true p q =
    masked_eq 29 id arb (omega (arith, p)) (omega (arith, q))
matches-create_filter raw_id id arb true false p q = refl
matches-create_filter raw_id id arb false true p q = refl
matches-create_filter raw_id id arb false false p q =
    masked_eq 11 id arb (omega (arith, p)) (omega (arith, q))

any_matches-listed :
    (is : List Identifier) (msg : Message)
    → All Fits is
    → OnBus msg
    → any_matches (map create_filter_from_id is) msg ≡ listed is msg
unfolding any_matches listed
any_matches-listed [] msg ps q = refl
any_matches-listed (i ∷ is) msg (p, ps) q = rw (
  matches-create_filter i.raw_id i.id msg.arbitration_id i.is_extended msg.is_extended_id p q,
  any_matches-listed is msg ps q,
)

-- With the filters of the slave and of the DAQ identifiers, a message is accepted exactly when
-- its number and its kind are those of one of them.
pub accept-listed :
    (slave : Identifier) (daq : List Identifier) (msg : Message)
    → All Fits (slave ∷ daq)
    → OnBus msg
    → accept (set_filters (can_filters slave daq) new_software_filter) msg
      ≡ listed (slave ∷ daq) msg
unfolding accept accept_by set_filters can_filters
accept-listed slave daq msg ps q = any_matches-listed (slave ∷ daq) msg ps q
