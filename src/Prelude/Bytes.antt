-- ===== src/Prelude/Bytes.antt =====
-- Unsigned numbers as bytes in either order, as Python's struct.pack and struct.unpack read them.
use pyxcp.Prelude.{
  ℕ, zero, suc, ◌+◌, ◌*◌, ◌/◌, ◌%◌, ◌^◌, ◌<◌, ◌≡◌, refl, ap, ◌∙◌, List, [], ◌∷◌, reverse, length,
  Option, none, some, ◌==◌, ==_refl, if◌then◌else◌, arith,
}
use mathlib.Core.List.{reverse_aux, reverse-reverse}

pub data Endian : Type 0 where
  little : Endian
  big : Endian

-- The number that little-endian bytes stand for.
unfoldable pub number_of : List ℕ → ℕ
number_of [] = 0
number_of (b ∷ bs) = b + 256 * number_of bs

unfoldable pub digits_of : ℕ → ℕ → List ℕ
digits_of zero x = []
digits_of (suc n) x = x % 256 ∷ digits_of n (x / 256)

-- `struct.pack` of a number of so many bytes.
unfoldable pub pack : Endian → ℕ → ℕ → List ℕ
pack little n x = digits_of n x
pack big n x = reverse (digits_of n x)

unfoldable pub from_bytes : Endian → List ℕ → ℕ
from_bytes little bs = number_of bs
from_bytes big bs = number_of (reverse bs)

-- `struct.unpack`; any other number of bytes is an error.
unfoldable pub unpack : Endian → ℕ → List ℕ → Option ℕ
unpack order n bs = if length bs == n then some (from_bytes order bs) else none

div_bound : (n x : ℕ) → x < 256 ^ suc n → x / 256 < 256 ^ n
div_bound n x h = let e : 256 ^ suc n ≡ 256 ^ n * 256 = grind arith in omega (arith, e)

pub number_of-digits_of : (n x : ℕ) → x < 256 ^ n → number_of (digits_of n x) ≡ x
unfolding number_of digits_of
number_of-digits_of zero x h = omega arith
number_of-digits_of (suc n) x h =
    let e = number_of-digits_of n (x / 256) (div_bound n x h) in omega (arith, e)

pub length-digits_of : (n x : ℕ) → length (digits_of n x) ≡ n
unfolding digits_of
length-digits_of zero x = refl
length-digits_of (suc n) x = ap suc (length-digits_of n (x / 256))

length-reverse_aux : (xs ys : List ℕ) → length (reverse_aux xs ys) ≡ length xs + length ys
length-reverse_aux [] ys = omega arith
length-reverse_aux (x ∷ xs) ys = omega (arith, length-reverse_aux xs (x ∷ ys))

length-reverse : (xs : List ℕ) → length (reverse xs) ≡ length xs
length-reverse xs = length-reverse_aux xs [] ∙ omega arith

pub length-pack : (order : Endian) (n x : ℕ) → length (pack order n x) ≡ n
unfolding pack
length-pack little n x = length-digits_of n x
length-pack big n x = length-reverse (digits_of n x) ∙ length-digits_of n x

pub unpack-pack :
    (order : Endian) (n x : ℕ) → x < 256 ^ n → unpack order n (pack order n x) ≡ some x
unfolding unpack from_bytes pack
unpack-pack little n x h =
    rw (length-pack little n x, ==_refl n, if◌then◌else◌) (ap some (number_of-digits_of n x h))
unpack-pack big n x h =
    rw (length-pack big n x, ==_refl n, if◌then◌else◌)
      (ap (λ bs. some (number_of bs)) (reverse-reverse (digits_of n x))
        ∙ ap some (number_of-digits_of n x h))
