-- ===== src/Checksum/Crc/Division.antt =====
-- The table-driven CRC computes a polynomial division (pyxcp/checksum.py: Crc16).
use pyxcp.Prelude.{
  Bool-cases, inl, inr, ℕ, ◌+◌, ◌*◌, ◌/◌, ◌%◌, ◌^◌, ◌<◌, true, ◌≡◌, refl, ap, ◌∙◌, List, [], ◌∷◌,
  map, All, bit_and, bit_xor, if◌then◌else◌, arith,
}
use pyxcp.Prelude.Bits.{bit_xor_split, bit_xor-bound, bit_xor-zero, zero-bit_xor, bit_and_mask}
use pyxcp.Prelude.Words.{◌<<<◌, ◌>>>◌}
use pyxcp.Checksum.Crc.{reflect, Crc16, table_at, reflect_in, update, updates}
use pyxcp.Checksum.Crc.Table.{shift_bits, right_table, table_at-bound, table_at-shift_bits}

-- The reference: each byte is added to the high half of the register, then shifted through.
unfoldable pub divide : ℕ → ℕ → List ℕ → ℕ
divide poly r [] = r
divide poly r (ch ∷ frame) = divide poly (shift_bits 8 poly (bit_xor (ch * 256) r)) frame

mask_word : (x : ℕ) → bit_and x 0xffff ≡ x % 0x10000
mask_word x =
    let z : x ≡ x / 0x10000 * 2 ^ 16 + x % 0x10000 = omega arith in
    ap (λ y. bit_and y 0xffff) z ∙ bit_and_mask 16 (x / 0x10000) (x % 0x10000) (omega arith)

mask_byte : (x : ℕ) → x < 256 → bit_and x 0xff ≡ x
mask_byte x p =
    let z : x ≡ 0 * 2 ^ 8 + x = omega arith in ap (λ y. bit_and y 0xff) z ∙ bit_and_mask 8 0 x p

shifted : (d h l : ℕ) → l < 256 → bit_xor (d * 256) (h * 256 + l) ≡ bit_xor d h * 256 + l
shifted d h l p =
    let z : d * 256 ≡ d * 2 ^ 8 + 0 = omega arith in
    rw (z, bit_xor_split 8 d h 0 l (omega arith) p, zero-bit_xor l)

xor_high :
    (a b l s : ℕ)
    → l < 256
    → s < 256
    → bit_xor (a * 256 + l) (b * 256 + s) ≡ bit_xor a b * 256 + bit_xor l s
xor_high a b l s p q = bit_xor_split 8 a b l s p q

-- The high byte of the register leaves it when it is shifted by a byte.
masked_parts :
    (a b h l : ℕ)
    → a < 256
    → b < 256
    → h < 256
    → l < 256
    → bit_and (bit_xor (a * 256 + b) ((h * 256 + l) <<< 8)) 0xffff ≡ bit_xor (a * 256 + b) (l * 256)
masked_parts a b h l p q r s =
    let z : (x : ℕ) → x * 256 ≡ x * 256 + 0 = λ x. omega arith in
    let y' : 0 * 256 + a ≡ a = omega arith in
    let low : bit_xor (a * 256 + b) (l * 256) ≡ bit_xor a l * 256 + b =
      rw (z l, xor_high a l b 0 q (omega arith), bit_xor-zero b) in
    let top : bit_xor a (h * 256 + l) ≡ h * 256 + bit_xor a l =
      rw (zero-bit_xor h, y') at (xor_high 0 h a l p s) in
    let all : bit_xor (a * 256 + b) ((h * 256 + l) * 256) ≡ h * 2 ^ 16 + (bit_xor a l * 256 + b) =
      rw (z (h * 256 + l), xor_high a (h * 256 + l) b 0 q (omega arith), bit_xor-zero b, top)
        (omega arith) in
    rw (low, all) (bit_and_mask 16 h _ (omega (arith, bit_xor-bound 8 a l p s)))

masked :
    (e h l : ℕ)
    → e < 0x10000
    → h < 256
    → l < 256
    → bit_and (bit_xor e ((h * 256 + l) <<< 8)) 0xffff ≡ bit_xor e (l * 256)
masked e h l p q r =
    let z : e ≡ e / 256 * 256 + e % 256 = omega arith in
    rw (z) (masked_parts (e / 256) (e % 256) h l (omega arith) (omega arith) q r)

-- One byte as `Crc16` takes it: reflected or not.
unfoldable pub taken : Crc16 → ℕ → ℕ
taken c ch = if c.reflect_data then reflect ch 8 else ch

reflect_in-byte :
    (c : Crc16) (h l ch : ℕ)
    → h < 256
    → l < 256
    → taken c ch < 256
    → reflect_in c ch (h * 256 + l) ≡ bit_xor (taken c ch) h
unfolding reflect_in taken
reflect_in-byte c h l ch p q r =
    let z : (h * 256 + l) >>> 8 ≡ h = omega arith in
    elim (Bool-cases c.reflect_data) [
      | inl e ↦
          rw (e, if◌then◌else◌, z)
            (mask_byte _ (bit_xor-bound 8 _ _ (rw (e, if◌then◌else◌) at r) p))
      | inr e ↦
          rw (e, if◌then◌else◌, z)
            (mask_byte _ (bit_xor-bound 8 _ _ (rw (e, if◌then◌else◌) at r) p))
    ]

pub update-bound : (c : Crc16) (r ch : ℕ) → update c r ch < 0x10000
unfolding update
update-bound c r ch = rw mask_word (omega arith)

module _ (c : Crc16) (poly : ℕ) (right : right_table c.table poly ≡ true) where
  update-parts :
      (h l ch : ℕ)
      → h < 256
      → l < 256
      → taken c ch < 256
      → update c (h * 256 + l) ch ≡ shift_bits 8 poly (bit_xor (taken c ch * 256) (h * 256 + l))
  unfolding update
  update-parts h l ch p q r =
      let b : bit_xor (taken c ch) h < 256 = bit_xor-bound 8 _ _ r p in
      rw (
        reflect_in-byte c h l ch p q r,
        masked (table_at c.table (bit_xor (taken c ch) h)) h l
            (table_at-bound c.table poly right _ b) p q,
        table_at-shift_bits c.table poly right _ l b q,
        shifted (taken c ch) h l q,
      )

  update-divides :
      (r ch : ℕ)
      → r < 0x10000
      → taken c ch < 256
      → update c r ch ≡ shift_bits 8 poly (bit_xor (taken c ch * 256) r)
  update-divides r ch p q =
      let z : r ≡ r / 256 * 256 + r % 256 = omega arith in
      rw z (update-parts (r / 256) (r % 256) ch (omega arith) (omega arith) q)

  pub updates-divide :
      (r : ℕ) (frame : List ℕ)
      → r < 0x10000
      → All (λ ch. taken c ch < 256) frame
      → updates c r frame ≡ divide poly r (map (taken c) frame)
  unfolding updates divide
  updates-divide r [] p q = refl
  updates-divide r (ch ∷ frame) p (q, qs) =
      rw (updates-divide (update c r ch) frame (update-bound c r ch) qs, update-divides r ch p q)
