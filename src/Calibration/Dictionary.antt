-- ===== src/Calibration/Dictionary.antt =====
-- Dictionaries of segments and of pages that the discovery can leave
-- (pyxcp/master/calibration.py: Segment, Calibration).
use pyxcp.Prelude.{
  ℕ, suc, ◌≤◌, ◌<◌, ◌≡◌, inl, inr, Bool-cases, some, [], ◌∷◌, ◌==◌, ==_iff, if◌then◌else◌, arith,
}
use mathlib.Core.Path.{subst}
use pyxcp.Calibration.Layout.{Dict, find_key, update_key, Page, Segment, Calibration}

module _ {A : Type 0} (P : ℕ → A → Type 0) where
  -- The keys go up from a first one and stay below a bound, and each value is right for its key.
  abbrev pub Ascending : ℕ → ℕ → Dict A → Type 0
  Ascending low high [] = Unit
  Ascending low high ((key, a) ∷ ds) =
      (low ≤ key) × (key < high) × P key a × Ascending (suc key) high ds

  pub Ascending-lower :
      (low lower high : ℕ) (ds : Dict A)
      → lower ≤ low
      → Ascending low high ds
      → Ascending lower high ds
  Ascending-lower low lower high [] h p = tt
  Ascending-lower low lower high ((key, a) ∷ ds) h p = (omega (arith, p.0), p.1, p.2, p.3)

  pub find_key-Ascending :
      (low high k : ℕ) (ds : Dict A) (a : A)
      → Ascending low high ds
      → find_key k ds ≡ some a
      → (k < high) × P k a
  unfolding find_key
  find_key-Ascending low high k [] a p e = let no : ⊥ = grind (arith, e) in elim no [ ]
  find_key-Ascending low high k ((key, b) ∷ ds) a p e = elim (Bool-cases (key == k)) [
    | inl t ↦
        let found : some b ≡ some a = rw (t, if◌then◌else◌) at e in
        let same_key : key ≡ k = (==_iff key k).0 t in
        let same_value : b ≡ a = grind (arith, found) in
        (
          omega (arith, p.1, same_key),
          subst (λ n. P n a) same_key (subst (λ x. P key x) same_value p.2),
        )
    | inr f ↦ find_key-Ascending (suc key) high k ds a p.3 (rw (f, if◌then◌else◌) at e)
  ]

  pub update_key-Ascending :
      (low high k : ℕ) (f : A → A) (ds : Dict A)
      → ((key : ℕ) (a : A) → P key a → P key (f a))
      → Ascending low high ds
      → Ascending low high (update_key k f ds)
  unfolding update_key
  update_key-Ascending low high k f [] h p = tt
  update_key-Ascending low high k f ((key, a) ∷ ds) h p = elim (Bool-cases (key == k)) [
    | inl e ↦ rw (e, if◌then◌else◌) (p.0, p.1, h key a p.2, p.3)
    | inr e ↦
        rw (e, if◌then◌else◌) (p.0, p.1, p.2, update_key-Ascending (suc key) high k f ds h p.3)
  ]

-- A page knows its segment and its number.
abbrev pub PageRight : ℕ → ℕ → Page → Type 0
PageRight segment key pg = (pg.segment_number ≡ segment) × (pg.page_number ≡ key)

abbrev pub SegmentRight : ℕ → Segment → Type 0
SegmentRight key seg = (seg.number ≡ key) × Ascending (PageRight key) 0 seg.max_pages seg.pages

-- The segments are numbered without repetition below the number that the slave has, and the pages
-- of each below its own.
abbrev pub WellFormed : Calibration → Type 0
WellFormed c = Ascending SegmentRight 0 c.max_segments c.segments
