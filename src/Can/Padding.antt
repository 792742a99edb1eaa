-- ===== src/Can/Padding.antt =====
-- Padding to the lengths that CAN and CAN FD allow (pyxcp/transport/can.py: pad_frame).
pub mod Dlc
pub mod Agreement
use pyxcp.Prelude.{
  ℕ, zero, suc, ◌+◌, ◌-◌, Bool, List, [], ◌∷◌, ◌++◌, Option, none, some, length, get_elem?,
  replicate, ltb, leb, if◌then◌else◌,
}

abbrev pub max_dlc_classic : ℕ
max_dlc_classic = 8

abbrev pub can_fd_dlcs : List ℕ
can_fd_dlcs = 12 ∷ 16 ∷ 20 ∷ 24 ∷ 32 ∷ 48 ∷ 64 ∷ []

-- `bisect_left` on a sorted list: the place of the first item that is not less.
unfoldable pub bisect_left : List ℕ → ℕ → ℕ
bisect_left [] x = 0
bisect_left (a ∷ as') x = let rest = bisect_left as' x in if ltb a x then suc rest else 0

-- The variable `actual_len`; none is the IndexError of a frame of more than 64 bytes.
unfoldable pub actual_length : ℕ → Bool → Option ℕ
actual_length frame_len pad =
    if leb frame_len max_dlc_classic
    then some (if pad then max_dlc_classic else frame_len)
    else get_elem? can_fd_dlcs (bisect_left can_fd_dlcs frame_len)

unfoldable pub fill : List ℕ → ℕ → Option ℕ → Option (List ℕ)
fill frame padding_value none = none
fill frame padding_value (some actual_len) = some (
    if ltb (length frame) actual_len
    then frame ++ replicate (actual_len - length frame) padding_value
    else frame)

-- `pad_frame(frame, pad_frame, padding_value)`, for a padding value that is a byte.
unfoldable pub pad_frame : List ℕ → Bool → ℕ → Option (List ℕ)
pad_frame frame pad padding_value = fill frame padding_value (actual_length (length frame) pad)

unfoldable pub first_fitting : List ℕ → ℕ → Option ℕ
first_fitting [] n = none
first_fitting (dlc ∷ dlcs) n =
    let rest = first_fitting dlcs n in if leb n dlc then some dlc else rest

-- `set_DLC(length)`; none is the ValueError.
unfoldable pub set_dlc : ℕ → Option ℕ
set_dlc n =
    if leb n max_dlc_classic
    then some n
    else (if leb n 64 then first_fitting can_fd_dlcs n else none)
