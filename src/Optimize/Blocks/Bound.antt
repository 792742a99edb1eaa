-- ===== src/Optimize/Blocks/Bound.antt =====
-- No section is longer than the bound, unless a single measurement is.
use pyxcp.Prelude.{
  ℕ, ◌≤◌, ◌<◌, ◌≡◌, refl, true, Option, none, some, List, [], ◌∷◌, ◌⊎◌, inl, inr, arith, All,
  Bool-cases, zero, suc,
}
use mathlib.Core.Option.{get_or}
use pyxcp.Prelude.Sort.{sort, All-sort}
use pyxcp.Optimize.Blocks.{
  McObject, Section, key_le, same_key, longest, group_from, group, new_section, extend, is_truthy,
  Bounds, switch_bound, within, merge, merge_all, make_continuous_blocks,
}
use pyxcp.Optimize.Blocks.Steps.{merge-cases, Joins, joined_length}

abbrev pub Fits : ℕ → Section → Type 0
Fits n s = s.length ≤ n

-- The bound that is in force is positive, and after the first comparison it is `initial`.
abbrev Bounded : ℕ → Bounds → Type 0
Bounded i b =
    (is_truthy b.upper_bound ≡ true) × ((b.first_section ≡ true) ⊎ (b.upper_bound ≡ some i))

switch_bound-eq :
    (i : ℕ) (b : Bounds) → Bounded i b → (switch_bound (some i) b).upper_bound ≡ some i
unfolding switch_bound
switch_bound-eq i b h = ground arith

switch_bound-Bounded :
    (i : ℕ) (b : Bounds) → 0 < i → Bounded i b → Bounded i (switch_bound (some i) b)
unfolding switch_bound is_truthy
switch_bound-Bounded i b p h = ground arith

Joins-Bounded :
    (i : ℕ) (b b' : Bounds) (last : Section) (x : McObject)
    → 0 < i
    → Bounded i b
    → Joins (some i) b b' last x
    → Bounded i b' × (joined_length last x ≤ i)
Joins-Bounded i b b' last x p k (inl (free, e)) = absurd (cc)
Joins-Bounded i b b' last x p k (inr (t, e, w)) =
    let here : b'.upper_bound ≡ some i = rw e (switch_bound-eq i b k) in
    (rw e (switch_bound-Bounded i b p k), unfold within in ground arith)

merge-Fits :
    (n i : ℕ) (b : Bounds) (last : Section) (xs : List McObject)
    → 0 < i
    → i ≤ n
    → Bounded i b
    → last.length ≤ n
    → All (λ x. x.length ≤ n) xs
    → All (Fits n) (merge (some i) b last xs)
merge-Fits n i b last [] p q k l a = unfold merge in (l, tt)
merge-Fits n i b last (x ∷ xs) p q k l a =
    merge-cases (All (Fits n)) (some i) b last x xs
      (λ _. (l, merge-Fits n i b (new_section x) xs p q k (unfold new_section in a.0) a.1))
      (λ _ _. merge-Fits n i b last xs p q k l a.1)
      (λ _ _ b' j.
        merge-Fits n i b' (extend last x) xs p q (Joins-Bounded i b b' last x p k j).0
          (unfold extend in omega (arith, (Joins-Bounded i b b' last x p k j).1)) a.1)
      (λ _ _ _. (
        l,
        merge-Fits n i (switch_bound (some i) b) (new_section x) xs p q
            (switch_bound-Bounded i b p k) (unfold new_section in a.0) a.1,
      ))

longest-Fits :
    (n : ℕ) (best x : McObject) → best.length ≤ n → x.length ≤ n → (longest best x).length ≤ n
unfolding longest
longest-Fits n best x h k = ground arith

group_from-Fits :
    (n : ℕ) (best : McObject) (xs : List McObject)
    → best.length ≤ n
    → All (λ x. x.length ≤ n) xs
    → All (λ x. x.length ≤ n) (group_from best xs)
unfolding group_from
group_from-Fits n best [] h a = (h, tt)
group_from-Fits n best (x ∷ xs) h a = elim (Bool-cases (same_key best x)) [
  | inl same ↦ rw same (group_from-Fits n (longest best x) xs (longest-Fits n best x h a.0) a.1)
  | inr other ↦ rw other (h, group_from-Fits n x xs a.0 a.1)
]

merge_all-Fits :
    (n i : ℕ) (b : Bounds) (xs : List McObject)
    → 0 < i
    → i ≤ n
    → Bounded i b
    → All (λ x. x.length ≤ n) xs
    → All (Fits n) (merge_all (some i) b xs)
unfolding merge_all
merge_all-Fits n i b [] p q k a = tt
merge_all-Fits n i b (x ∷ xs) p q k a =
    merge-Fits n i b (new_section x) xs p q k (unfold new_section in a.0) a.1

group-Fits :
    (n : ℕ) (xs : List McObject) → All (λ x. x.length ≤ n) xs → All (λ x. x.length ≤ n) (group xs)
unfolding group
group-Fits n [] a = tt
group-Fits n (x ∷ xs) a = group_from-Fits n x xs a.0 a.1

sorted-Fits :
    (n : ℕ) (chunks : List McObject)
    → All (λ x. x.length ≤ n) chunks
    → All (λ x. x.length ≤ n) (group (sort key_le chunks))
sorted-Fits n chunks a = group-Fits n (sort key_le chunks) (All-sort key_le _ chunks a)

-- With a positive bound, and an initial bound that is positive too where one is given, every
-- section is at most as long as the larger of the longest measurement and of the bound that
-- applies, which is the initial one.
pub make_continuous_blocks-Fits :
    (chunks : List McObject) (upper n : ℕ) (initial : Option ℕ)
    → 0 < upper
    → 0 < get_or initial upper
    → get_or initial upper ≤ n
    → All (λ x. x.length ≤ n) chunks
    → All (Fits n) (make_continuous_blocks chunks (some upper) initial)
unfolding make_continuous_blocks is_truthy
make_continuous_blocks-Fits chunks zero n initial o p q a = elim o [ ]
make_continuous_blocks-Fits chunks (suc u) n none o p q a =
    merge_all-Fits n (suc u) _ _ p q (refl, inl refl) (sorted-Fits n chunks a)
make_continuous_blocks-Fits chunks (suc u) n (some i) o p q a =
    merge_all-Fits n i _ _ p q (refl, inl refl) (sorted-Fits n chunks a)
