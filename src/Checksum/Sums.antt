-- ===== src/Checksum/Sums.antt =====
-- The additive checksums and the choice of an algorithm (pyxcp/checksum.py: adder,
-- pad_to_word_size, wordSum, ALGO, check, validate_checksum).
pub mod Padding
pub mod Words
use pyxcp.Prelude.{
  ℕ, zero, suc, ◌+◌, ◌-◌, ◌*◌, ◌%◌, Bool, ◌||◌, List, [], ◌∷◌, ◌++◌, Option, none, some, length,
  take, drop, ◌==◌, if◌then◌else◌,
}

-- The exceptions of the module.
pub data ChecksumFailure : Type 0 where
  not_implemented : ChecksumFailure
  value_error : ChecksumFailure
  type_error : ChecksumFailure
  struct_error : ChecksumFailure

pub data Checked (A : Type 0) : Type 0 where
  ok : A → Checked A
  raised : ChecksumFailure → Checked A

abbrev pub sum : List ℕ → ℕ
sum [] = 0
sum (x ∷ xs) = x + sum xs

-- `adder(modulus)`; the moduli of the module are positive.
unfoldable pub adder : ℕ → List ℕ → ℕ
adder modulus frame = sum frame % modulus

-- `padding_value * padding_bytes`
abbrev pub times_bytes : ℕ → List ℕ → List ℕ
times_bytes zero value = []
times_bytes (suc n) value = value ++ times_bytes n value

-- `pad_to_word_size`, for a positive word size: Python fails on a division by 0.
unfoldable pub pad_to_word_size : List ℕ → ℕ → List ℕ → List ℕ
pad_to_word_size frame word_size padding_value =
    let padding_bytes = word_size - length frame % word_size in
    if padding_bytes == word_size then frame else frame ++ times_bytes padding_bytes padding_value

unfoldable pub little_endian : List ℕ → ℕ
little_endian [] = 0
little_endian (b ∷ bs) = b + 256 * little_endian bs

-- `struct.unpack` of one unsigned little-endian number of so many bytes: any other number of
-- bytes is an error.
unfoldable pub unpack_word : ℕ → List ℕ → Option ℕ
unpack_word size bytes = if length bytes == size then some (little_endian bytes) else none

-- `frame[x : x + step] for x in range(0, len(frame), step)`, for as many slices as there is fuel:
-- the length of the frame is enough.
unfoldable pub slices : ℕ → ℕ → List ℕ → List (List ℕ)
slices zero step frame = []
slices (suc fuel) step [] = []
slices (suc fuel) step (b ∷ frame) =
    take step (b ∷ frame) ∷ slices fuel step (drop step (b ∷ frame))

-- The list of the comprehension, or the first error.
abbrev pub collect : Option ℕ → Checked (List ℕ) → Checked (List ℕ)
collect none rest = raised struct_error
collect (some x) (ok xs) = ok (x ∷ xs)
collect (some x) (raised f) = raised f

unfoldable pub unpack_all : ℕ → List (List ℕ) → Checked (List ℕ)
unpack_all size [] = ok []
unpack_all size (s ∷ ss) = collect (unpack_word size s) (unpack_all size ss)

unfoldable pub sum_of : ℕ → Checked (List ℕ) → Checked ℕ
sum_of modulus (ok xs) = ok (sum xs % modulus)
sum_of modulus (raised f) = raised f

-- The frame of a (double-)word sum, padded, cut and added up.
unfoldable pub padded_sum : ℕ → ℕ → List ℕ → Checked ℕ
padded_sum modulus step padded =
    sum_of modulus (unpack_all step (slices (length padded) step padded))

-- `wordSum(modulus, step)`: the masks "<H" and "<I" read 2 and 4 bytes, as the step says.
unfoldable pub word_sum : ℕ → ℕ → List ℕ → Checked ℕ
word_sum modulus step frame =
    if step == 2 || step == 4
    then padded_sum modulus step (pad_to_word_size frame step (0 ∷ []))
    else raised not_implemented
