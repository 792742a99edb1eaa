-- ===== src/Optimize/BinPacking.antt =====
-- First-fit-decreasing bin packing (pyxcp/daq_stim/optimize/binpacking.py: first_fit_decreasing;
-- pyxcp/cpp_ext/bin.hpp: Bin), for items of any type that have a length.
pub mod Capacity
pub mod Items
use pyxcp.Prelude.{
  ℕ, ◌+◌, ◌-◌, Bool, Option, none, some, List, [], ◌∷◌, ◌++◌, leb, ltb, if◌then◌else◌,
}
use pyxcp.Prelude.Sort.{sort}

-- `Bin`, whose sizes are meant to be of 16 bits (`std::uint16_t`); greater ones, which are a
-- TypeError, are outside the model.
pub record Bin (A : Type 0) : Type 0 where
  pub size : ℕ
  pub residual_capacity : ℕ
  pub entries : List A

-- The result, or the `ValueError` for an item that is too large.
pub data Packing (A : Type 0) : Type 0 where
  packed : List (Bin A) → Packing A
  too_large : A → Packing A

-- `Bin(size=size)`
abbrev pub new_bin : {A : Type 0} → ℕ → Bin A
new_bin n = record { size = n; residual_capacity = n; entries = [] }

module _ {A : Type 0} (length_of : A → ℕ) where
  -- `key=lambda x: x.length, reverse=True`: longer items first, equal ones in their order.
  unfoldable pub not_shorter : A → A → Bool
  not_shorter x y = leb (length_of y) (length_of x)

  -- `bin.append(item)` and the capacity that it costs.
  unfoldable pub add : A → Bin A → Bin A
  add item b = record b {
    residual_capacity = b.residual_capacity - length_of item;
    entries = b.entries ++ item ∷ [];
  }

  -- The loop over the bins, and its `else`: a new bin.
  unfoldable pub place : ℕ → A → List (Bin A) → List (Bin A)
  unfolding add
  place bin_size item [] = add item (new_bin bin_size) ∷ []
  place bin_size item (b ∷ bs) =
      if leb (length_of item) b.residual_capacity
      then add item b ∷ bs
      else b ∷ place bin_size item bs

  -- The loop over the items.
  unfoldable pub place_all : ℕ → List A → List (Bin A) → Packing A
  place_all bin_size [] bins = packed bins
  place_all bin_size (item ∷ items) bins =
      let rest = place_all bin_size items (place bin_size item bins) in
      if ltb bin_size (length_of item) then too_large item else rest

  unfoldable pub first_fit_decreasing : List A → ℕ → Option ℕ → Packing A
  unfolding place_all not_shorter sort
  first_fit_decreasing items bin_size none =
      place_all bin_size (sort not_shorter items) (new_bin bin_size ∷ [])
  first_fit_decreasing items bin_size (some initial_bin_size) =
      place_all bin_size (sort not_shorter items) (new_bin initial_bin_size ∷ [])
