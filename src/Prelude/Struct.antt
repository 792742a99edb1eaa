-- ===== src/Prelude/Struct.antt =====
-- Several unsigned little-endian numbers in one sequence of bytes, as struct.Struct packs and
-- unpacks them with a format like "<BHL".
use pyxcp.Prelude.{
  ℕ, ◌+◌, ◌<◌, ◌^◌, ◌≡◌, refl, sym, ap, ◌∙◌, Option, none, some, List, [], ◌∷◌, ◌++◌, length,
  length-append, take, drop, take-length-append, drop-length-append, All, ltb, lt→ltb, ◌==◌,
  ==_refl, if◌then◌else◌, arith,
}
use pyxcp.Prelude.Bytes.{number_of, digits_of, number_of-digits_of, length-digits_of}

pub record Field : Type 0 where
  pub size : ℕ
  pub value : ℕ

-- The values fit their sizes.
abbrev pub Fields : List Field → Type 0
Fields = All (λ f. f.value < 256 ^ f.size)

abbrev pub sizes : List Field → List ℕ
sizes [] = []
sizes (f ∷ fs) = f.size ∷ sizes fs

abbrev pub values : List Field → List ℕ
values [] = []
values (f ∷ fs) = f.value ∷ values fs

abbrev pub total : List ℕ → ℕ
total [] = 0
total (n ∷ ns) = n + total ns

-- The bytes of fields that fit.
abbrev pub bytes_of : List Field → List ℕ
bytes_of [] = []
bytes_of (f ∷ fs) = digits_of f.size f.value ++ bytes_of fs

abbrev pub prepend : List ℕ → Option (List ℕ) → Option (List ℕ)
prepend xs none = none
prepend xs (some ys) = some (xs ++ ys)

-- `pack`; a value that does not fit is a struct.error.
unfoldable pub pack_fields : List Field → Option (List ℕ)
pack_fields [] = some []
pack_fields (f ∷ fs) =
    let rest = prepend (digits_of f.size f.value) (pack_fields fs) in
    if ltb f.value (256 ^ f.size) then rest else none

unfoldable pub cut : List ℕ → List ℕ → List ℕ
cut [] bs = []
cut (n ∷ ns) bs = number_of (take n bs) ∷ cut ns (drop n bs)

-- `unpack`; any other number of bytes is a struct.error.
unfoldable pub unpack_fields : List ℕ → List ℕ → Option (List ℕ)
unpack_fields ns bs = if length bs == total ns then some (cut ns bs) else none

pub pack_fields-bytes_of : (fs : List Field) → Fields fs → pack_fields fs ≡ some (bytes_of fs)
unfolding pack_fields
pack_fields-bytes_of [] h = refl
pack_fields-bytes_of (f ∷ fs) h =
    rw (lt→ltb f.value (256 ^ f.size) h.0, if◌then◌else◌)
      (ap (prepend (digits_of f.size f.value)) (pack_fields-bytes_of fs h.1))

pub length-bytes_of : (fs : List Field) → length (bytes_of fs) ≡ total (sizes fs)
length-bytes_of [] = refl
length-bytes_of (f ∷ fs) = omega (
  arith,
  length-append (digits_of f.size f.value) (bytes_of fs),
  length-digits_of f.size f.value,
  length-bytes_of fs,
)

take-digits : (n x : ℕ) (ys : List ℕ) → take n (digits_of n x ++ ys) ≡ digits_of n x
take-digits n x ys =
    ap (λ k. take k (digits_of n x ++ ys)) (sym (length-digits_of n x))
    ∙ take-length-append (digits_of n x) ys

drop-digits : (n x : ℕ) (ys : List ℕ) → drop n (digits_of n x ++ ys) ≡ ys
drop-digits n x ys =
    ap (λ k. drop k (digits_of n x ++ ys)) (sym (length-digits_of n x))
    ∙ drop-length-append (digits_of n x) ys

cut-bytes_of : (fs : List Field) → Fields fs → cut (sizes fs) (bytes_of fs) ≡ values fs
unfolding cut
cut-bytes_of [] h = refl
cut-bytes_of (f ∷ fs) h =
    rw
      (
        take-digits f.size f.value (bytes_of fs),
        drop-digits f.size f.value (bytes_of fs),
        number_of-digits_of f.size f.value h.0,
      )
      (ap (λ vs. f.value ∷ vs) (cut-bytes_of fs h.1))

pub unpack_fields-bytes_of :
    (fs : List Field) → Fields fs → unpack_fields (sizes fs) (bytes_of fs) ≡ some (values fs)
unfolding unpack_fields
unpack_fields-bytes_of fs h =
    rw (length-bytes_of fs, ==_refl (total (sizes fs)), if◌then◌else◌) (ap some (cut-bytes_of fs h))
