-- ===== src/Optimize/Blocks.antt =====
-- Merging of measurements into continuous memory sections
-- (pyxcp/daq_stim/optimize/__init__.py: make_continuous_blocks). The measurements have no
-- components of their own, so that a section is a record over them.
pub mod Steps
pub mod Bound
pub mod Overlap
pub mod Cover
use pyxcp.Prelude.{
  ℕ, zero, suc, ◌+◌, ◌-◌, Bool, true, false, not, ◌&&◌, ◌||◌, Option, none, some, List, [], ◌∷◌,
  ◌++◌, leb, ltb, ◌==◌, if◌then◌else◌,
}
use pyxcp.Prelude.Sort.{sort}

-- `McObject` of a measurement: the fields that are read here. The length has 16 bits; greater ones
-- are left to the theorems, which exclude them.
pub record McObject : Type 0 where
  pub address : ℕ
  pub ext : ℕ
  pub length : ℕ

-- `McObject(name="", address=..., ext=..., length=..., components=[...])`
pub record Section : Type 0 where
  pub address : ℕ
  pub ext : ℕ
  pub length : ℕ
  pub components : List McObject

-- The order of `(x.ext, x.address)`.
unfoldable pub key_le : McObject → McObject → Bool
key_le x y = ltb x.ext y.ext || ((x.ext == y.ext) && leb x.address y.address)

unfoldable pub same_key : McObject → McObject → Bool
same_key x y = (x.ext == y.ext) && (x.address == y.address)

-- `max(value, key=attrgetter("length"))` of a group, which has `best` as its maximum so far: the
-- first of the longest.
unfoldable pub longest : McObject → McObject → McObject
longest best x = if ltb best.length x.length then x else best

-- `groupby`, on the sorted list: the longest of each run of equal keys; `best` is that of the
-- current run.
unfoldable pub group_from : McObject → List McObject → List McObject
unfolding same_key longest
group_from best [] = best ∷ []
group_from best (x ∷ xs) =
    let same_run = group_from (longest best x) xs in
    let next_run = best ∷ group_from x xs in if same_key best x then same_run else next_run

unfoldable pub group : List McObject → List McObject
unfolding group_from
group [] = []
group (x ∷ xs) = group_from x xs

-- A new section for one measurement.
unfoldable pub new_section : McObject → Section
new_section x = record { address = x.address; ext = x.ext; length = x.length; components = x ∷ [] }

-- `last_section.length += offset` and `add_component`. The new length is written as the distance
-- of the new end from the start, which is the same number, also where the offset is -1: no address
-- in a sorted list lies before the start. A length of more than 16 bits, which is a TypeError, is
-- left to the theorems, which exclude it by the bounds.
unfoldable pub extend : Section → McObject → Section
extend last x = record last {
  length = x.address + x.length - last.address;
  components = last.components ++ x ∷ [];
}

-- `section.address <= last_section.address + last_section.length`, with the same extension.
unfoldable pub adjoins : Section → McObject → Bool
adjoins last x = leb x.address (last.address + last.length) && (x.ext == last.ext)

-- `last_end > section.address`, where `last_end` is the last address of the section.
unfoldable pub starts_inside : Section → McObject → Bool
starts_inside last x = ltb (x.address + 1) (last.address + last.length)

-- `if upper_bound`: neither `None` nor 0.
unfoldable pub is_truthy : Option ℕ → Bool
is_truthy none = false
is_truthy (some zero) = false
is_truthy (some (suc n)) = true

-- The variables of the loop: the bound, whether no bound was applied yet, and the last section
-- (the sections before it do not change any more).
pub record Bounds : Type 0 where
  pub upper_bound : Option ℕ
  pub first_section : Bool

-- `if first_section: upper_bound = upper_bound_initial; first_section = False`
unfoldable pub switch_bound : Option ℕ → Bounds → Bounds
switch_bound initial b =
    if b.first_section then record { upper_bound = initial; first_section = false } else b

-- `n <= upper_bound`, for the length that the section would have; a bound of `None` is not reached
-- here by the callers, and raises in Python.
unfoldable pub within : ℕ → Option ℕ → Bool
within n none = false
within n (some u) = leb n u

-- The loop, with the last section held apart. The result is the list of sections from it on.
unfoldable pub merge : Option ℕ → Bounds → Section → List McObject → List Section
unfolding new_section extend adjoins starts_inside is_truthy switch_bound within
merge initial b last [] = last ∷ []
merge initial b last (x ∷ xs) =
    let skip = merge initial b last xs in
    let fresh = last ∷ merge initial b (new_section x) xs in
    let joined = merge initial b (extend last x) xs in
    let b' = switch_bound initial b in
    let joined' = merge initial b' (extend last x) xs in
    let fresh' = last ∷ merge initial b' (new_section x) xs in
    let bounded =
      if within (x.address + x.length - last.address) b'.upper_bound then joined' else fresh' in
    let outside = if is_truthy b.upper_bound then bounded else joined in
    if adjoins last x then (if starts_inside last x then skip else outside) else fresh

-- The first measurement always opens a section.
unfoldable pub merge_all : Option ℕ → Bounds → List McObject → List Section
unfolding merge
merge_all initial b [] = []
merge_all initial b (x ∷ xs) = merge initial b (new_section x) xs

-- `if upper_bound_initial is None: upper_bound_initial = upper_bound`
initial_bound : Option ℕ → Option ℕ → Option ℕ
initial_bound upper none = upper
initial_bound upper (some i) = some i

unfoldable pub make_continuous_blocks : List McObject → Option ℕ → Option ℕ → List Section
unfolding merge_all group key_le initial_bound sort
make_continuous_blocks chunks upper initial =
    merge_all (initial_bound upper initial) (record { upper_bound = upper; first_section = true })
      (group (sort key_le chunks))
