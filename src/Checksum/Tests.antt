-- ===== src/Checksum/Tests.antt =====
-- The checksums on the check string "123456789" and on small frames.
use pyxcp.Prelude.{ℕ, ◌^◌, ◌%◌, ◌<◌, ◌≡◌, refl, List, [], ◌∷◌, map, All, inl, arith}
use pyxcp.Checksum.Crc.{
  reflect_loop, reflect, reflect_in, reflect_out, update, updates, table_at, crc, crc16,
  crc16_ccitt,
}
use pyxcp.Checksum.Crc16Table.{crc16_table}
use pyxcp.Checksum.CcittTable.{crc16_ccitt_table}
use pyxcp.Checksum.Crc.Division.{divide}
use pyxcp.Checksum.Crc.Frames.{crc-divide}
use pyxcp.Checksum.Sums.{
  ok, raised, value_error, adder, little_endian, unpack_word, unpack_all, slices, sum_of,
  pad_to_word_size, padded_sum, word_sum,
}
use pyxcp.Checksum.Sums.Words.{positional, word_sum-positional}
use pyxcp.Checksum.Algorithms.{algorithm_of, apply, algo, check}
use pyxcp.Checksum.Algorithms.Bounds.{check-bound}

abbrev digits : List ℕ
digits = 0x31 ∷ 0x32 ∷ 0x33 ∷ 0x34 ∷ 0x35 ∷ 0x36 ∷ 0x37 ∷ 0x38 ∷ 0x39 ∷ []

abbrev no_crc32 : List ℕ → ℕ
no_crc32 x = 0

checksums : Unit {0}
unfolding reflect_loop reflect reflect_in reflect_out update updates table_at crc crc16 crc16_ccitt
    crc16_table crc16_ccitt_table adder little_endian unpack_word unpack_all slices sum_of
    pad_to_word_size padded_sum word_sum algorithm_of apply algo check
checksums = tt

ccitt-digits : crc crc16_ccitt digits ≡ 0x29B1
unfolding checksums
ccitt-digits = refl

crc16-digits : crc crc16 digits ≡ 0xBB3D
unfolding checksums
crc16-digits = refl

check-words : check no_crc32 (1 ∷ 2 ∷ 3 ∷ []) "XCP_ADD_22" ≡ ok 0x0204
unfolding checksums
check-words = refl

check-unknown : check no_crc32 digits "XCP_ADD_99" ≡ raised value_error
unfolding checksums
check-unknown = refl

digits-bytes : All (λ ch. ch < 256) digits
digits-bytes = (
  omega arith,
  (
    omega arith,
    (
      omega arith,
      (omega arith, (omega arith, (omega arith, (omega arith, (omega arith, (omega arith, tt)))))),
    ),
  ),
)

crc-divide_example :
    (crc crc16_ccitt digits ≡ divide 0x1021 0xFFFF digits)
    × (crc crc16 digits ≡ reflect (divide 0x8005 0 (map (λ ch. reflect ch 8) digits)) 16)
crc-divide_example = crc-divide digits digits-bytes

word_sum-positional_example :
    word_sum 0x10000 2 (1 ∷ 2 ∷ 3 ∷ []) ≡ ok (positional 2 0 (1 ∷ 2 ∷ 3 ∷ []) % 0x10000)
word_sum-positional_example = word_sum-positional 0x10000 2 (1 ∷ 2 ∷ 3 ∷ []) (inl refl)

check-bound_example : 0x0204 < 2 ^ 32
check-bound_example = check-bound no_crc32 (1 ∷ 2 ∷ 3 ∷ []) "XCP_ADD_22" 0x0204 check-words
