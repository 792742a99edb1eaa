-- ===== src/Checksum/Crc/Table.antt =====
-- The lookup tables against the bit-serial division that they abbreviate
-- (pyxcp/checksum.py: CRC16, CRC16_CCITT).
use pyxcp.Prelude.{
  ℕ, zero, suc, ◌+◌, ◌*◌, ◌%◌, ◌<◌, Bool, true, ◌&&◌, ◌≡◌, refl, ◌==◌, ==_iff, ltb, if◌then◌else◌,
  bit_xor, List, arith,
}
use pyxcp.Prelude.Bits.{all_below, all_below_lem}
use pyxcp.Checksum.Crc16Table.{crc16_table}
use pyxcp.Checksum.CcittTable.{crc16_ccitt_table}
use pyxcp.Checksum.Crc.{table_at}

-- One bit of the division of a 16-bit register by x^16 + `poly`.
unfoldable pub shift_bit : ℕ → ℕ → ℕ
shift_bit poly r = if ltb r 0x8000 then r * 2 else bit_xor (r * 2 % 0x10000) poly

unfoldable pub shift_bits : ℕ → ℕ → ℕ → ℕ
unfolding shift_bit
shift_bits zero poly r = r
shift_bits (suc n) poly r = shift_bits n poly (shift_bit poly r)

module _ (t : List ℕ) (poly : ℕ) where
  -- Entry h holds what eight bits of division make of h * 256 + l, up to l.
  right_at : ℕ → ℕ → Bool
  unfolding shift_bits table_at
  right_at h l = bit_xor (table_at t h) (l * 256) == shift_bits 8 poly (h * 256 + l)

  right_row : ℕ → Bool
  unfolding right_at table_at
  right_row h = ltb (table_at t h) 0x10000 && all_below 256 (right_at h)

  unfoldable pub right_table : Bool
  unfolding right_row all_below
  right_table = all_below 256 right_row

module _ (t : List ℕ) (poly : ℕ) (e : right_table t poly ≡ true) where
  row : (h : ℕ) → h < 256 → right_row t poly h ≡ true
  unfolding right_table
  row h p = all_below_lem 256 (right_row t poly) h e p

  pub table_at-bound : (h : ℕ) → h < 256 → table_at t h < 0x10000
  unfolding right_row
  table_at-bound h p = ground (arith, row h p)

  pub table_at-shift_bits :
      (h l : ℕ)
      → h < 256
      → l < 256
      → bit_xor (table_at t h) (l * 256) ≡ shift_bits 8 poly (h * 256 + l)
  unfolding right_row right_at
  table_at-shift_bits h l p q =
      (==_iff _ _).0 (all_below_lem 256 (right_at t poly h) l (ground (arith, row h p)) q)

pub crc16_table-right : right_table crc16_table 0x8005 ≡ true
unfolding right_table crc16_table
crc16_table-right = refl

pub crc16_ccitt_table-right : right_table crc16_ccitt_table 0x1021 ≡ true
unfolding right_table crc16_ccitt_table
crc16_ccitt_table-right = refl
