-- ===== src/Optimize/Blocks/Cover.antt =====
-- Measurements and the sections that hold them (pyxcp/daq_stim/optimize/__init__.py:
-- make_continuous_blocks).
use pyxcp.Prelude.{
  ℕ, ◌+◌, ◌-◌, ◌≤◌, ◌<◌, some, ◌≡◌, refl, true, Option, List, [], ◌∷◌, ◌⊎◌, inl, inr, arith, ltb,
  All, Bool-cases,
}
use pyxcp.Prelude.{if◌then◌else◌}
use pyxcp.Optimize.Blocks.Steps.{merge-cases}
use mathlib.Core.Option.{get_or}
use pyxcp.Prelude.Sort.{sort, All-sort_inv}
use pyxcp.Optimize.Blocks.Bound.{Fits, make_continuous_blocks-Fits}
use pyxcp.Optimize.Blocks.{
  McObject, Section, key_le, same_key, longest, group_from, group, new_section, extend, adjoins,
  starts_inside, Bounds, switch_bound, merge, merge_all, make_continuous_blocks,
}

-- The `n` bytes from `a` on, in the extension `ext`, lie in one of the sections.
abbrev pub Covered : List Section → ℕ → ℕ → ℕ → Type 0
Covered [] ext a n = ⊥
Covered (s ∷ ss) ext a n =
    ((s.ext ≡ ext) × (s.address ≤ a) × (a + n ≤ s.address + s.length)) ⊎ Covered ss ext a n

abbrev pub IsCovered : List Section → McObject → Type 0
IsCovered ss x = Covered ss x.ext x.address x.length

-- `x` does not start before `end`, if it is in the extension `ext`.
abbrev Follows : ℕ → ℕ → McObject → Type 0
Follows end ext x = x.ext ≡ ext → end ≤ x.address

-- Of two measurements in one extension, the later one starts after the end of the earlier one.
abbrev pub AreApart : List McObject → Type 0
AreApart [] = Unit
AreApart (x ∷ xs) = All (Follows (x.address + x.length) x.ext) xs × AreApart xs

Covered-within :
    (ss : List Section) (ext a n b m : ℕ)
    → Covered ss ext a n
    → a ≤ b
    → b + m ≤ a + n
    → Covered ss ext b m
Covered-within [] ext a n b m c h k = c
Covered-within (s ∷ ss) ext a n b m (inl (e, l, u)) h k = inl (e, omega arith, omega arith)
Covered-within (s ∷ ss) ext a n b m (inr c) h k = inr (Covered-within ss ext a n b m c h k)

-- The sections cover the section `last` and the measurements `xs`.
abbrev Complete : Section → List McObject → List Section → Type 0
Complete last xs ss = Covered ss last.ext last.address last.length × All (IsCovered ss) xs

All-weaken :
    (s : Section) (ss : List Section) (xs : List McObject)
    → All (IsCovered ss) xs
    → All (IsCovered (s ∷ ss)) xs
All-weaken s ss [] c = tt
All-weaken s ss (x ∷ xs) c = (inr c.0, All-weaken s ss xs c.1)

Complete-fresh :
    (last : Section) (x : McObject) (xs : List McObject) (ss : List Section)
    → Complete (new_section x) xs ss
    → Complete last (x ∷ xs) (last ∷ ss)
unfolding new_section
Complete-fresh last x xs ss (c, cs) =
    (inl (refl, omega arith, omega arith), (inr c, All-weaken last ss xs cs))

Complete-joined :
    (last : Section) (x : McObject) (xs : List McObject) (ss : List Section)
    → adjoins last x ≡ true
    → last.address + last.length ≤ x.address
    → Complete (extend last x) xs ss
    → Complete last (x ∷ xs) ss
unfolding extend adjoins
Complete-joined last x xs ss h k (c, cs) =
    let e : x.ext ≡ last.ext = ground arith in
    (
      Covered-within ss last.ext last.address _ last.address last.length c (omega arith)
          (omega arith),
      (
        rw e (
            Covered-within ss last.ext last.address _ x.address x.length c (omega arith)
              (omega arith)),
        cs,
      ),
    )

merge-Complete :
    (initial : Option ℕ) (b : Bounds) (last : Section) (xs : List McObject)
    → All (Follows (last.address + last.length) last.ext) xs
    → AreApart xs
    → Complete last xs (merge initial b last xs)
merge-Complete initial b last [] f a = unfold merge in (inl (refl, omega arith, omega arith), tt)
merge-Complete initial b last (x ∷ xs) f a =
    merge-cases (Complete last (x ∷ xs)) initial b last x xs
      (λ far.
        Complete-fresh last x xs _
          (merge-Complete initial b (new_section x) xs (unfold new_section in a.0) a.1))
      (λ near inside. absurd (not_inside near inside))
      (λ near outside b' _.
        Complete-joined last x xs _ near (starts near)
          (merge-Complete initial b' (extend last x) xs (unfold extend in follows near) a.1))
      (λ near outside _. Complete-fresh last x xs _ (
        merge-Complete initial (switch_bound initial b) (new_section x) xs
          (unfold new_section in a.0) a.1))
  where
    starts : adjoins last x ≡ true → last.address + last.length ≤ x.address
    starts near = f.0 (unfold adjoins in ground arith)

    follows :
        adjoins last x ≡ true
        → All (Follows (last.address + (x.address + x.length - last.address)) last.ext) xs
    follows near =
        let e : x.ext ≡ last.ext = unfold adjoins in ground arith in
        let k : last.address + (x.address + x.length - last.address) ≡ x.address + x.length =
          omega (arith, starts near) in
        rw (k, ← e) a.0

    not_inside : adjoins last x ≡ true → starts_inside last x ≡ true → ⊥
    not_inside near inside = unfold starts_inside in ground (arith, starts near)

-- A property that passes from a measurement to a shorter one at the same place holds of all
-- measurements if it holds of the longest of each group.
module _ (P : McObject → Type 0)
    (shorter : (x y : McObject) → same_key x y ≡ true → y.length ≤ x.length → P x → P y) where
  longest-both : (best x : McObject) → same_key best x ≡ true → P (longest best x) → P best × P x
  unfolding longest
  longest-both best x k p = elim (Bool-cases (ltb best.length x.length)) [
    | inl less ↦
        let px : P x = rw (less, if◌then◌else◌) at p in
        (shorter x best (unfold same_key in ground arith) (ground arith) px, px)
    | inr more ↦
        let pb : P best = rw (more, if◌then◌else◌) at p in (pb, shorter best x k (ground arith) pb)
  ]

  All-group_from :
      (best : McObject) (xs : List McObject) → All P (group_from best xs) → P best × All P xs
  unfolding group_from
  All-group_from best [] q = q
  All-group_from best (x ∷ xs) q = elim (Bool-cases (same_key best x)) [
    | inl same ↦
        let (p, ps) = All-group_from (longest best x) xs (rw (same, if◌then◌else◌) at q) in
        let (pb, px) = longest-both best x same p in (pb, (px, ps))
    | inr other ↦
        let r : P best × All P (group_from x xs) = rw (other, if◌then◌else◌) at q in
        (r.0, All-group_from x xs r.1)
  ]

  pub All-group_inv : (xs : List McObject) → All P (group xs) → All P xs
  unfolding group
  All-group_inv [] q = q
  All-group_inv (x ∷ xs) q = All-group_from x xs q

merge_all-covers :
    (initial : Option ℕ) (b : Bounds) (xs : List McObject)
    → AreApart xs
    → All (IsCovered (merge_all initial b xs)) xs
unfolding merge_all
merge_all-covers initial b [] a = tt
merge_all-covers initial b (x ∷ xs) a =
    let (c, cs) = merge-Complete initial b (new_section x) xs (unfold new_section in a.0) a.1 in
    (unfold new_section in c, cs)

IsCovered-shorter :
    (ss : List Section) (x y : McObject)
    → same_key x y ≡ true
    → y.length ≤ x.length
    → IsCovered ss x
    → IsCovered ss y
unfolding same_key
IsCovered-shorter ss x y k h c =
    let e : x.ext ≡ y.ext = ground arith in
    let a : x.address ≡ y.address = ground arith in
    rw (← e, ← a)
      (Covered-within ss x.ext x.address x.length x.address y.length c (omega arith) (omega arith))

make_continuous_blocks-IsCovered :
    (chunks : List McObject) (upper initial : Option ℕ)
    → AreApart (group (sort key_le chunks))
    → All (IsCovered (make_continuous_blocks chunks upper initial)) chunks
unfolding make_continuous_blocks
make_continuous_blocks-IsCovered chunks upper initial a =
    let ss = make_continuous_blocks chunks upper initial in
    All-sort_inv key_le (IsCovered ss) chunks (
      All-group_inv (IsCovered ss) (IsCovered-shorter ss) (sort key_le chunks)
        (merge_all-covers _ _ (group (sort key_le chunks)) a))

-- If the measurements do not overlap, apart from those that start at one address, and their
-- lengths have 16 bits, then under an upper bound, and a first bound where one is given, from 1 to
-- 65535, each measurement lies as a whole in one section of its address extension, and the length
-- of each section has 16 bits too.
pub make_continuous_blocks-covers :
    (chunks : List McObject) (upper : ℕ) (initial : Option ℕ)
    → AreApart (group (sort key_le chunks))
    → 0 < upper
    → 0 < get_or initial upper
    → get_or initial upper ≤ 65535
    → All (λ x. x.length ≤ 65535) chunks
    → All (IsCovered (make_continuous_blocks chunks (some upper) initial)) chunks
      × All (Fits 65535) (make_continuous_blocks chunks (some upper) initial)
make_continuous_blocks-covers chunks upper initial a p q r l = (
  make_continuous_blocks-IsCovered chunks (some upper) initial a,
  make_continuous_blocks-Fits chunks upper 65535 initial p q r l,
)
