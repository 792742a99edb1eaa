-- ===== src/Can/Identifier.antt =====
-- XCP formatted CAN identifiers (pyxcp/transport/can.py: Identifier, stripIdentifier,
-- is_extended_identifier).
pub mod Ranges
use pyxcp.Prelude.{
  ℕ, ◌-◌, Bool, true, false, Option, none, some, bit_and, bit_or, bit_xor, ltb, ◌==◌, if◌then◌else◌,
}

abbrev pub can_extended_id : ℕ
can_extended_id = 0x80000000

-- `(1 << 11) - 1`
abbrev pub max_11_bit_identifier : ℕ
max_11_bit_identifier = 0x7FF

-- `(1 << 29) - 1`
abbrev pub max_29_bit_identifier : ℕ
max_29_bit_identifier = 0x1FFFFFFF

unfoldable pub is_extended_identifier : ℕ → Bool
is_extended_identifier identifier = bit_and identifier can_extended_id == can_extended_id

-- `identifier & (~0xE0000000)`: without the bits that it shares with the mask.
unfoldable pub strip_identifier : ℕ → ℕ
strip_identifier identifier = identifier - bit_and identifier 0xE0000000

pub record Identifier : Type 0 where
  pub raw_id : ℕ
  pub id : ℕ
  pub is_extended : Bool

unfoldable pub checked : ℕ → ℕ → Bool → Option Identifier
checked raw_id id extended =
    if ltb (if extended then max_29_bit_identifier else max_11_bit_identifier) id
    then none
    else some (record { raw_id = raw_id; id = id; is_extended = extended })

-- `Identifier(raw_id)`; none is IdentifierOutOfRangeError.
unfoldable pub new_identifier : ℕ → Option Identifier
new_identifier raw_id = checked raw_id (strip_identifier raw_id) (is_extended_identifier raw_id)

-- `make_identifier(identifier, extended)`
unfoldable pub make_identifier : ℕ → Bool → Option Identifier
make_identifier identifier extended =
    new_identifier (if extended then bit_or identifier can_extended_id else identifier)
