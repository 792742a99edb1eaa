-- ===== src/Prelude/Sort.antt =====
-- Python's `sorted`: a stable sort, as insertion from the right. `before x y` says that `x`, which
-- stands left of `y`, may stay there.
use mathlib.Core.Bool.{Bool}
use mathlib.Core.Logic.{inl, inr}
use mathlib.Core.List.{List, [], ◌∷◌, Perm}
use mathlib.Core.List.Perm
use pyxcp.Prelude.Tests.{if◌then◌else◌, Bool-cases}
use pyxcp.Prelude.Lists.{All}

module _ {ℓ} {A : Type ℓ} (before : A → A → Bool) where
  unfoldable pub insert : A → List A → List A
  insert x [] = x ∷ []
  insert x (y ∷ ys) = if before x y then x ∷ y ∷ ys else y ∷ insert x ys

  unfoldable pub sort : List A → List A
  unfolding insert
  sort [] = []
  sort (x ∷ xs) = insert x (sort xs)

  insert-perm : (x : A) (ys : List A) → Perm (insert x ys) (x ∷ ys)
  unfolding insert
  insert-perm x [] = Perm.refl (x ∷ [])
  insert-perm x (y ∷ ys) = elim (Bool-cases (before x y)) [
    | inl stays ↦ rw stays (Perm.refl (x ∷ y ∷ ys))
    | inr moves ↦ rw moves (Perm.trans (Perm.cons y (insert-perm x ys)) (Perm.swap x y ys))
  ]

  pub sort-perm : (xs : List A) → Perm (sort xs) xs
  unfolding sort
  sort-perm [] = Perm.refl []
  sort-perm (x ∷ xs) = Perm.trans (insert-perm x (sort xs)) (Perm.cons x (sort-perm xs))

  All-insert {κ} : (P : A → Type κ) (x : A) (ys : List A) → P x → All P ys → All P (insert x ys)
  unfolding insert
  All-insert P x [] p q = (p, tt)
  All-insert P x (y ∷ ys) p q = elim (Bool-cases (before x y)) [
    | inl stays ↦ rw stays (p, q)
    | inr moves ↦ rw moves (q.0, All-insert P x ys p q.1)
  ]

  pub All-sort {κ} : (P : A → Type κ) (xs : List A) → All P xs → All P (sort xs)
  unfolding sort
  All-sort P [] q = q
  All-sort P (x ∷ xs) q = All-insert P x (sort xs) q.0 (All-sort P xs q.1)

  All-insert_inv {κ} : (P : A → Type κ) (x : A) (ys : List A) → All P (insert x ys) → P x × All P ys
  unfolding insert
  All-insert_inv P x [] q = (q.0, tt)
  All-insert_inv P x (y ∷ ys) q = elim (Bool-cases (before x y)) [
    | inl stays ↦ rw (stays, if◌then◌else◌) at q
    | inr moves ↦
        let r : P y × All P (insert x ys) = rw (moves, if◌then◌else◌) at q in
        let (p, rest) = All-insert_inv P x ys r.1 in (p, (r.0, rest))
  ]

  pub All-sort_inv {κ} : (P : A → Type κ) (xs : List A) → All P (sort xs) → All P xs
  unfolding sort
  All-sort_inv P [] q = q
  All-sort_inv P (x ∷ xs) q =
      let (p, r) = All-insert_inv P x (sort xs) q in (p, All-sort_inv P xs r)
