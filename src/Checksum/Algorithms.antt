-- ===== src/Checksum/Algorithms.antt =====
-- The choice of an algorithm by its name (pyxcp/checksum.py: ALGO, check, validate_checksum).
pub mod Bounds
use pyxcp.Prelude.{
  ℕ, ◌+◌, ◌-◌, ◌^◌, Bool, List, [], ◌∷◌, Option, none, some, String, bit_and, ◌==◌, if◌then◌else◌,
}
use text.Mathlib.Text.{◌==◌ as str_eq}
use pyxcp.Checksum.Crc.{crc, crc16, crc16_ccitt}
use pyxcp.Checksum.Sums.{
  Checked, ok, raised, ChecksumFailure, not_implemented, value_error, type_error, adder, word_sum,
}

abbrev pub Algorithm : Type 0
Algorithm = List ℕ → Checked ℕ

unfoldable pub algorithm_of : List (String × Algorithm) → String → Option Algorithm
algorithm_of [] name = none
algorithm_of ((key, f) ∷ rest) name = if str_eq key name then some f else algorithm_of rest name

-- `fun(frame)`, or the error: the message formats the name with `:d`, and a string has no such
-- format, so that ValueError is raised instead of NotImplementedError.
unfoldable pub apply : Option Algorithm → List ℕ → Checked ℕ
apply none frame = raised value_error
apply (some f) frame = f frame

-- What `validate_checksum` reads of its argument; an attribute can be missing.
pub record ChecksumResponse : Type 0 where
  pub checksum_type : Option String
  pub checksum : Option ℕ

unfoldable pub compare_checksum : Checked ℕ → ℕ → Checked Bool
compare_checksum (ok master_cs) slave_cs = ok (slave_cs == master_cs)
compare_checksum (raised f) slave_cs = raised f

-- `zlib.crc32` is a parameter.
module _ (zlib_crc32 : List ℕ → ℕ) where
  -- `CRC32`
  unfoldable pub crc32 : List ℕ → ℕ
  crc32 x = bit_and (zlib_crc32 x) 0xFFFFFFFF

  -- `ALGO`
  unfoldable pub algo : List (String × Algorithm)
  algo =
      ("XCP_ADD_11", λ x. ok (adder (2 ^ 8) x))
      ∷ ("XCP_ADD_12", λ x. ok (adder (2 ^ 16) x))
      ∷ ("XCP_ADD_14", λ x. ok (adder (2 ^ 32) x))
      ∷ ("XCP_ADD_22", word_sum (2 ^ 16) 2)
      ∷ ("XCP_ADD_24", word_sum (2 ^ 32) 2)
      ∷ ("XCP_ADD_44", word_sum (2 ^ 32) 4)
      ∷ ("XCP_CRC_16", λ x. ok (crc crc16 x))
      ∷ ("XCP_CRC_16_CITT", λ x. ok (crc crc16_ccitt x))
      ∷ ("XCP_CRC_32", λ x. ok (crc32 x))
      ∷ ("XCP_USER_DEFINED", λ x. raised not_implemented)
      ∷ []

  unfoldable pub check : List ℕ → String → Checked ℕ
  check frame name = apply (algorithm_of algo name) frame

  unfoldable pub validate_checksum : List ℕ → ChecksumResponse → Checked Bool
  validate_checksum frame slave_cs = elim slave_cs.checksum_type [
    | none ↦ raised type_error
    | some name ↦ elim slave_cs.checksum [
      | none ↦ raised type_error
      | some value ↦ compare_checksum (check frame name) value
    ]
  ]
