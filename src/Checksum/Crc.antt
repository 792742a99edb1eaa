-- ===== src/Checksum/Crc.antt =====
-- The table-driven CRC (pyxcp/checksum.py: reflect, Crc16).
pub mod Table
pub mod Division
pub mod Frames
use pyxcp.Prelude.{
  ℕ, zero, suc, ◌+◌, ◌-◌, ◌%◌, ◌^◌, Bool, true, false, List, [], ◌∷◌, Option, none, some, bit_and,
  bit_or, bit_xor, get_elem?, ◌==◌, if◌then◌else◌,
}
use pyxcp.Checksum.Crc16Table.{crc16_table}
use pyxcp.Checksum.CcittTable.{crc16_ccitt_table}
use pyxcp.Prelude.Words.{◌<<<◌, ◌>>>◌}

-- The loop of `reflect` with `left` rounds to go; the bit's place is counted down with them.
unfoldable pub reflect_loop : ℕ → ℕ → ℕ → ℕ
reflect_loop zero data' reflection = reflection
reflect_loop (suc left) data' reflection =
    reflect_loop left (data' >>> 1)
      (if bit_and data' 0x01 == 0 then reflection else bit_or reflection (1 <<< left))

-- `reflect(data, nBits)`
unfoldable pub reflect : ℕ → ℕ → ℕ
reflect data' n_bits = reflect_loop n_bits data' 0x00000000

-- `Crc16`: the arguments of the constructor.
pub record Crc16 : Type 0 where
  pub table : List ℕ
  pub initial_remainder : ℕ
  pub final_xor_value : ℕ
  pub reflect_data : Bool
  pub reflect_remainder : Bool

-- `self.table[data]`; past the end of the table, where Python raises, the model reads 0.
unfoldable pub table_at : List ℕ → ℕ → ℕ
table_at [] i = 0
table_at (x ∷ xs) zero = x
table_at (x ∷ xs) (suc i) = table_at xs i

module _ (c : Crc16) where
  -- `reflectIn`
  unfoldable pub reflect_in : ℕ → ℕ → ℕ
  reflect_in ch remainder =
      if c.reflect_data
      then bit_and (bit_xor (reflect ch 8) (remainder >>> 8)) 0xff
      else bit_and (bit_xor ch (remainder >>> 8)) 0xff

  -- One round of the loop over the frame.
  unfoldable pub update : ℕ → ℕ → ℕ
  update remainder ch =
      bit_and (bit_xor (table_at c.table (reflect_in ch remainder)) (remainder <<< 8)) 0xffff

  unfoldable pub updates : ℕ → List ℕ → ℕ
  updates remainder [] = remainder
  updates remainder (ch ∷ frame) = updates (update remainder ch) frame

  -- `reflectOut`
  unfoldable pub reflect_out : ℕ → ℕ
  reflect_out remainder =
      if c.reflect_remainder
      then bit_xor (reflect remainder 16) c.final_xor_value
      else bit_xor remainder c.final_xor_value

  -- `__call__`
  unfoldable pub crc : List ℕ → ℕ
  crc frame = reflect_out (updates c.initial_remainder frame)

-- `CRC16`
unfoldable pub crc16 : Crc16
crc16 = record {
  table = crc16_table;
  initial_remainder = 0x0000;
  final_xor_value = 0x0000;
  reflect_data = true;
  reflect_remainder = true;
}

-- `CRC16_CCITT`
unfoldable pub crc16_ccitt : Crc16
crc16_ccitt = record {
  table = crc16_ccitt_table;
  initial_remainder = 0xFFFF;
  final_xor_value = 0x0000;
  reflect_data = false;
  reflect_remainder = false;
}
