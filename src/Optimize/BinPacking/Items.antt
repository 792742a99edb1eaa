-- ===== src/Optimize/BinPacking/Items.antt =====
-- Every item is packed into one bin, and an item that is too large is reported.
use mathlib.Core.List.{Perm, perm_middle, Mem, mem-cons}
use mathlib.Core.List.Perm
use mathlib.Core.Logic.Or
use mathlib.Core.Option.{get_or}
use pyxcp.Prelude.{
  ℕ, ◌≤◌, ◌<◌, refl, Bool, Option, none, some, List, [], ◌∷◌, ◌++◌, append_assoc, append-nil, arith,
  leb, ltb, All, Bool-cases, inl, inr, ltb→lt,
}
use pyxcp.Prelude.Sort.{sort, sort-perm, All-sort_inv}
use pyxcp.Optimize.BinPacking.{
  Bin, Packing, packed, too_large, new_bin, not_shorter, add, place, place_all,
  first_fit_decreasing,
}
use pyxcp.Optimize.BinPacking.Capacity.{AreExact, place-AreExact}

abbrev pub contents : {A : Type 0} → List (Bin A) → List A
contents [] = []
contents (b ∷ bs) = b.entries ++ contents bs

module _ {A : Type 0} (length_of : A → ℕ) where
  place-perm :
      (n : ℕ) (item : A) (bs : List (Bin A))
      → Perm (contents (place length_of n item bs)) (item ∷ contents bs)
  unfolding place add
  place-perm n item [] = Perm.refl (item ∷ [])
  place-perm n item (b ∷ bs) = elim (Bool-cases (leb (length_of item) b.residual_capacity)) [
    | inl fits ↦ rw (fits, append_assoc) (perm_middle b.entries (contents bs))
    | inr full ↦ rw full (
        Perm.trans (Perm.append_left b.entries (place-perm n item bs))
          (perm_middle b.entries (contents bs)))
  ]

  -- What packing `items` into bins of size `later`, after a first one of size `first`, may give:
  -- exact bins that hold the items, all of which fit, or an item that does not fit.
  abbrev pub Packs : ℕ → ℕ → List A → Packing A → Type 0
  Packs first later items (packed bins) =
      AreExact length_of first later bins
      × Perm (contents bins) items
      × All (λ x. length_of x ≤ later) items
  Packs first later items (too_large x) = Mem x items × (later < length_of x)

  -- The same for the loop, from the bins of a state.
  abbrev Extends : ℕ → ℕ → List (Bin A) → List A → Packing A → Type 0
  Extends first later bs items (packed bins) =
      AreExact length_of first later bins
      × Perm (contents bins) (contents bs ++ items)
      × All (λ x. length_of x ≤ later) items
  Extends first later bs items (too_large x) = Mem x items × (later < length_of x)

  Extends-cons :
      (first later : ℕ) (x : A) (items : List A) (bs : List (Bin A)) (p : Packing A)
      → length_of x ≤ later
      → Extends first later (place length_of later x bs) items p
      → Extends first later bs (x ∷ items) p
  Extends-cons first later x items bs (packed bins) h (e, perm, small) = (
    e,
    Perm.trans perm (
        Perm.trans (Perm.append_right items (place-perm later x bs))
          (Perm.symm (perm_middle (contents bs) items))),
    (h, small),
  )
  Extends-cons first later x items bs (too_large y) h (m, l) = (mem-cons.1 (Or.inr m), l)

  place_all-Extends :
      (first later : ℕ) (items : List A) (bs : List (Bin A))
      → AreExact length_of first later bs
      → Extends first later bs items (place_all length_of later items bs)
  unfolding place_all
  place_all-Extends first later [] bs e = (e, rw append-nil (Perm.refl (contents bs)), tt)
  place_all-Extends first later (x ∷ items) bs e = elim (Bool-cases (ltb later (length_of x))) [
    | inl large ↦ rw large (mem-cons.1 (Or.inl refl), ltb→lt _ _ large)
    | inr fits ↦
        let small : length_of x ≤ later = ground arith in
        rw fits (
          Extends-cons first later x items bs _ small (
            place_all-Extends first later items (place length_of later x bs)
              (place-AreExact length_of first later x bs small e)))
  ]

  Packs-sort :
      (before : A → A → Bool) (first later : ℕ) (items : List A) (p : Packing A)
      → Extends first later (new_bin first ∷ []) (sort before items) p
      → Packs first later items p
  Packs-sort before first later items (packed bins) (e, perm, small) =
      (e, Perm.trans perm (sort-perm before items), All-sort_inv before _ items small)
  Packs-sort before first later items (too_large x) (m, l) =
      ((Perm.mem_iff (sort-perm before items)).0 m, l)

  -- Packing either reports an item that is longer than a bin, or all items fit, and then the bins
  -- hold each item once, the first has the initial size and the others the bin size, and in each
  -- what is stored and what is left make up its size.
  pub first_fit_decreasing-Packs :
      (items : List A) (bin_size : ℕ) (initial : Option ℕ)
      → Packs
          (get_or initial bin_size)
          bin_size
          items
          (first_fit_decreasing length_of items bin_size initial)
  unfolding first_fit_decreasing
  first_fit_decreasing-Packs items n none = Packs-sort (not_shorter length_of) n n items _ (
      place_all-Extends n n (sort (not_shorter length_of) items) (new_bin n ∷ [])
        ((omega arith, refl), tt))
  first_fit_decreasing-Packs items n (some i) = Packs-sort (not_shorter length_of) i n items _ (
      place_all-Extends i n (sort (not_shorter length_of) items) (new_bin i ∷ [])
        ((omega arith, refl), tt))
