-- ===== src/Calibration/Permission.antt =====
-- When a page is switched (pyxcp/master/calibration.py: set_page).
use pyxcp.Prelude.{
  ℕ, ◌<◌, ◌≡◌, ◌≢◌, refl, sym, ap, ◌∙◌, inl, inr, ◌⊎◌, Bool, true, false, not, ◌&&◌, ◌||◌,
  Bool-cases, Option, none, some, Option-cases, List, ◌==◌, bit_and, if◌then◌else◌, arith,
}
use mathlib.Core.Path.{subst}
use pyxcp.Calibration.Layout.{
  PagePropertiesInfo, ecu_access, xcp_write_access, find_key, Page, Segment, Calibration,
  new_calibration, Commands,
}
use pyxcp.Calibration.Calls.{Operation, perform_all}
use pyxcp.Calibration.Kept.{perform_all-WellFormed}
use pyxcp.Calibration.Discovery.{
  value_error, permission_error, Performed, returned, raised, refresh,
}
use pyxcp.Calibration.Operations.{
  then_do, command, refused, set_page_of, set_page_in, check_initialized, set_page,
}
use pyxcp.Calibration.Dictionary.{SegmentRight, WellFormed, find_key-Ascending}

-- A page without properties allows everything; otherwise writing with XCP and access by the
-- control unit are allowed by the properties, where the mode asks for them.
abbrev pub Allows : ℕ → Option PagePropertiesInfo → Type 0
Allows mode none = Unit
Allows mode (some p) =
    (bit_and mode 0x02 ≢ 0 → xcp_write_access p ≡ true)
    × (bit_and mode 0x01 ≢ 0 → ecu_access p ≡ true)

-- The page is known, and its properties allow the mode.
abbrev pub Permitted : Calibration → ℕ → ℕ → ℕ → Type 0
Permitted c segment page mode =
    (seg : Segment) × (pg : Page) × (find_key segment c.segments ≡ some seg)
    × (find_key page seg.pages ≡ some pg)
    × Allows mode pg.properties

-- Where a bit is asked for, the access must be there.
bits-allowed :
    (a b : ℕ) (w x : Bool)
    → ((not (a == 0) && not w) || (not (b == 0) && not x)) ≡ false
    → (a ≢ 0 → w ≡ true) × (b ≢ 0 → x ≡ true)
bits-allowed a b w x e = ground arith

bits-refused :
    (a b : ℕ) (w x : Bool)
    → ((not (a == 0) && not w) || (not (b == 0) && not x)) ≡ true
    → (a ≢ 0 → w ≡ true) × (b ≢ 0 → x ≡ true)
    → ⊥
bits-refused a b w x e h = ground arith

module _ {S : Type 0} (master : Commands S) where
  refused-false :
      (mode : ℕ) (p : Option PagePropertiesInfo) → refused master mode p ≡ false → Allows mode p
  refused-false mode none e = tt
  refused-false mode (some p) e =
      bits-allowed (bit_and mode 0x02) (bit_and mode 0x01) (xcp_write_access p) (ecu_access p) e

  refused-true :
      (mode : ℕ) (p : Option PagePropertiesInfo) → refused master mode p ≡ true → Allows mode p → ⊥
  refused-true mode none e h = ground arith
  refused-true mode (some p) e h =
      bits-refused (bit_and mode 0x02) (bit_and mode 0x01) (xcp_write_access p) (ecu_access p) e h

  -- The command is sent, or not.
  abbrev pub Sent : ℕ → ℕ → ℕ → Calibration → S → Performed S Unit → Type 0
  Sent segment page mode c s o =
      (segment < c.max_segments)
      × Permitted c segment page mode
      × (o ≡ command c (master.set_cal_page mode segment page s))

  abbrev pub Refused : ℕ → ℕ → ℕ → Calibration → S → Performed S Unit → Type 0
  Refused segment page mode c s o =
      (Permitted c segment page mode → ⊥)
      × ((o ≡ raised value_error c s) ⊎ (o ≡ raised permission_error c s))

  abbrev pub Decided : ℕ → ℕ → ℕ → Calibration → S → Performed S Unit → Type 0
  Decided segment page mode c s o = Sent segment page mode c s o ⊎ Refused segment page mode c s o

  denied :
      (mode segment page : ℕ) (seg : Segment) (pg : Page) (c : Calibration)
      → find_key segment c.segments ≡ some seg
      → find_key page seg.pages ≡ some pg
      → refused master mode pg.properties ≡ true
      → Permitted c segment page mode
      → ⊥
  denied mode segment page seg pg c e f r (seg', pg', e', f', allows) =
      let some_seg : some seg' ≡ some seg = sym e' ∙ e in
      let same_seg : seg' ≡ seg = grind (arith, some_seg) in
      let some_pg : some pg' ≡ some pg = sym f' ∙ ap (λ x. find_key page x.pages) same_seg ∙ f in
      let same_pg : pg' ≡ pg = grind (arith, some_pg) in
      refused-true mode pg.properties r (subst (λ x. Allows mode x.properties) same_pg allows)

  unknown_segment :
      (mode segment page : ℕ) (c : Calibration)
      → find_key segment c.segments ≡ none
      → Permitted c segment page mode
      → ⊥
  unknown_segment mode segment page c e (seg', pg', e', f', allows) =
      let no : some seg' ≡ none = sym e' ∙ e in grind (arith, no)

  unknown_page :
      (mode segment page : ℕ) (seg : Segment) (c : Calibration)
      → find_key segment c.segments ≡ some seg
      → find_key page seg.pages ≡ none
      → Permitted c segment page mode
      → ⊥
  unknown_page mode segment page seg c e f (seg', pg', e', f', allows) =
      let some_seg : some seg' ≡ some seg = sym e' ∙ e in
      let same_seg : seg' ≡ seg = grind (arith, some_seg) in
      let no : some pg' ≡ none = sym f' ∙ ap (λ x. find_key page x.pages) same_seg ∙ f in
      grind (arith, no)

  set_page_of-Decided :
      (segment page mode : ℕ) (seg : Segment) (pg : Page) (c : Calibration) (s : S)
      → segment < c.max_segments
      → find_key segment c.segments ≡ some seg
      → find_key page seg.pages ≡ some pg
      → Decided segment page mode c s (set_page_of master segment page mode (some pg) c s)
  set_page_of-Decided segment page mode seg pg c s h e f =
      elim (Bool-cases (refused master mode pg.properties)) [
        | inl r ↦ rw (r, if◌then◌else◌) (inr (denied mode segment page seg pg c e f r, inr refl))
        | inr r ↦
            rw (r, if◌then◌else◌)
              (inl (h, (seg, pg, e, f, refused-false mode pg.properties r), refl))
      ]

  set_page_in-Decided :
      (segment page mode : ℕ) (c : Calibration) (s : S)
      → WellFormed c
      → Decided segment page mode c s
          (set_page_in master segment page mode (find_key segment c.segments) c s)
  set_page_in-Decided segment page mode c s h = elim (Option-cases (find_key segment c.segments)) [
    | inl e ↦ inr (
      unknown_segment mode segment page c e,
      inl (ap (λ o. set_page_in master segment page mode o c s) e),
    )
    | inr (seg, e) ↦
        let below = find_key-Ascending SegmentRight 0 c.max_segments segment c.segments seg h e in
        let found : set_page_in master segment page mode (find_key segment c.segments) c s
            ≡ set_page_of master segment page mode (find_key page seg.pages) c s =
          ap (λ o. set_page_in master segment page mode o c s) e in
        elim (Option-cases (find_key page seg.pages)) [
          | inl f ↦ inr (
            unknown_page mode segment page seg c e f,
            inl (found ∙ ap (λ o. set_page_of master segment page mode o c s) f),
          )
          | inr (pg, f) ↦
              subst (λ o. Decided segment page mode c s o)
                (sym (found ∙ ap (λ o. set_page_of master segment page mode o c s) f))
                (set_page_of-Decided segment page mode seg pg c s below.0 e f)
        ]
  ]

  set_page-Decided_once :
      (segment page mode : ℕ) (c : Calibration) (s : S)
      → WellFormed c
      → c.initialized ≡ true
      → Decided segment page mode c s (set_page master segment page mode c s)
  unfolding set_page check_initialized
  set_page-Decided_once segment page mode c s h ready =
      subst (λ o. Decided segment page mode c s o)
        (sym (
          ap
            (λ b.
              then_do
                (λ u c' s'.
                  set_page_in master segment page mode (find_key segment c'.segments) c' s')
                (if b then returned tt c s else refresh master c s))
            ready))
        (set_page_in-Decided segment page mode c s h)

  -- After any calls on a new object, once it is refreshed, the command that switches a page is sent
  -- exactly when the segment and the page are known and the properties of the page allow what the
  -- mode asks for, and then the segment is below the number that the slave gave. Otherwise a
  -- ValueError or a PermissionError is raised and the slave is not asked at all.
  pub set_page-Decided :
      (calls : List Operation) (start : S) (segment page mode : ℕ) (c : Calibration) (s : S)
      → perform_all master calls new_calibration start ≡ (c, s)
      → c.initialized ≡ true
      → Decided segment page mode c s (set_page master segment page mode c s)
  set_page-Decided calls start segment page mode c s run ready =
      set_page-Decided_once segment page mode c s
        (subst (λ r. WellFormed r.0) run (perform_all-WellFormed master calls start)) ready
