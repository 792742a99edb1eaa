-- ===== src/Checksum/Crc/Frames.antt =====
-- The two 16-bit CRCs of the service against polynomial division
-- (pyxcp/checksum.py: CRC16, CRC16_CCITT).
use pyxcp.Prelude.{ℕ, ◌<◌, true, ◌≡◌, refl, ap, ◌∙◌, List, [], ◌∷◌, map, All, ltb, ltb→lt, arith}
use pyxcp.Prelude.Bits.{all_below, all_below_lem, bit_xor-zero}
use pyxcp.Checksum.Crc.{reflect_loop, reflect, reflect_out, crc, crc16, crc16_ccitt}
use pyxcp.Checksum.Crc.Table.{crc16_table-right, crc16_ccitt_table-right}
use pyxcp.Checksum.Crc.Division.{divide, taken, updates-divide}

map-same : (f : ℕ → ℕ) → ((x : ℕ) → f x ≡ x) → (xs : List ℕ) → map f xs ≡ xs
map-same f e [] = refl
map-same f e (x ∷ xs) = rw (e x, map-same f e xs)

All-map : {P Q : ℕ → Type 0} → ((x : ℕ) → P x → Q x) → (xs : List ℕ) → All P xs → All Q xs
All-map f [] p = p
All-map f (x ∷ xs) (p, ps) = (f x p, All-map f xs ps)

crc-ccitt :
    (frame : List ℕ)
    → All (λ ch. ch < 256) frame
    → crc crc16_ccitt frame ≡ divide 0x1021 0xFFFF frame
unfolding crc reflect_out crc16_ccitt taken
crc-ccitt frame p = rw (
  bit_xor-zero,
  updates-divide crc16_ccitt 0x1021 crc16_ccitt_table-right 0xFFFF frame (omega arith) p,
  map-same (taken crc16_ccitt) (λ x. refl) frame,
)

reflected_bytes : all_below 256 (λ ch. ltb (reflect ch 8) 256) ≡ true
unfolding all_below reflect reflect_loop
reflected_bytes = refl

reflect-byte : (ch : ℕ) → ch < 256 → reflect ch 8 < 256
reflect-byte ch p =
    ltb→lt (reflect ch 8) 256 (all_below_lem 256 (λ x. ltb (reflect x 8) 256) ch reflected_bytes p)

crc-crc16 :
    (frame : List ℕ)
    → All (λ ch. ch < 256) frame
    → crc crc16 frame ≡ reflect (divide 0x8005 0 (map (λ ch. reflect ch 8) frame)) 16
unfolding crc reflect_out crc16 taken
crc-crc16 frame p =
    bit_xor-zero _
    ∙ ap (λ r. reflect r 16)
        (updates-divide crc16 0x8005 crc16_table-right 0 frame (omega arith)
          (All-map reflect-byte frame p))

-- A frame of bytes under CRC16_CCITT gives the remainder of the bit-serial division by
-- x^16 + x^12 + x^5 + 1 that starts at 0xFFFF, and under CRC16 the reflected remainder of the
-- bit-serial division of the reflected bytes by x^16 + x^15 + x^2 + 1, from 0.
pub crc-divide :
    (frame : List ℕ)
    → All (λ ch. ch < 256) frame
    → (crc crc16_ccitt frame ≡ divide 0x1021 0xFFFF frame)
      × (crc crc16 frame ≡ reflect (divide 0x8005 0 (map (λ ch. reflect ch 8) frame)) 16)
crc-divide frame p = (crc-ccitt frame p, crc-crc16 frame p)
