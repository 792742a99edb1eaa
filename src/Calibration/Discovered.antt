-- ===== src/Calibration/Discovered.antt =====
-- What the discovery leaves (pyxcp/master/calibration.py: refresh).
use pyxcp.Prelude.{ℕ, zero, suc, ◌+◌, ◌≤◌, ◌<◌, refl, Option, none, some, arith}
use pyxcp.Calibration.Layout.{
  PageInfo, Dict, Page, Segment, Calibration, SegmentInfo, PagProcessorInfo, Answer, Commands,
}
use pyxcp.Calibration.Discovery.{
  Performed, returned, raised, add_page, discover_pages, segment_with, discover_segment,
  add_segment, discover_segments, refresh_with, refresh,
}
use pyxcp.Calibration.Dictionary.{Ascending, Ascending-lower, PageRight, SegmentRight, WellFormed}

-- What holds of the object after an operation, whether it returned or raised.
abbrev pub After : {S A : Type 0} → (Calibration → Type 0) → Performed S A → Type 0
After P (returned a c s) = P c
After P (raised e c s) = P c

module _ {S : Type 0} (master : Commands S) where
  add_page-Ascending :
      (i p high : ℕ) (info : Option PageInfo) (ps : Dict Page)
      → p < high
      → Ascending (PageRight i) (suc p) high ps
      → Ascending (PageRight i) p high (add_page master i p info ps)
  add_page-Ascending i p high none ps h a =
      Ascending-lower (PageRight i) (suc p) p high ps (omega arith) a
  add_page-Ascending i p high (some info) ps h a = (omega arith, h, (refl, refl), a)

  discover_pages-Ascending :
      (i p n high : ℕ) (s : S)
      → p + n ≤ high
      → Ascending (PageRight i) p high (discover_pages master i p n s).0
  unfolding discover_pages
  discover_pages-Ascending i p zero high s h = tt
  discover_pages-Ascending i p (suc n) high s h =
      let answer = master.get_page_info i p s in
      add_page-Ascending i p high answer.0 (discover_pages master i (suc p) n answer.1).0
        (omega arith) (discover_pages-Ascending i (suc p) n high answer.1 (omega arith))

  abbrev Found : ℕ → Option Segment → Type 0
  Found i none = Unit
  Found i (some seg) = SegmentRight i seg

  segment_with-Found :
      (i : ℕ) (answer : Answer S SegmentInfo) → Found i (segment_with master i answer).0
  segment_with-Found i (none, s) = tt
  segment_with-Found i (some info, s) =
      (refl, discover_pages-Ascending i 0 info.max_pages info.max_pages _ (omega arith))

  add_segment-Ascending :
      (i high : ℕ) (found : Option Segment) (ss : Dict Segment)
      → i < high
      → Found i found
      → Ascending SegmentRight (suc i) high ss
      → Ascending SegmentRight i high (add_segment master i found ss)
  add_segment-Ascending i high none ss h f a =
      Ascending-lower SegmentRight (suc i) i high ss (omega arith) a
  add_segment-Ascending i high (some seg) ss h f a = (omega arith, h, f, a)

  discover_segments-Ascending :
      (i n high : ℕ) (s : S)
      → i + n ≤ high
      → Ascending SegmentRight i high (discover_segments master i n s).0
  unfolding discover_segments discover_segment
  discover_segments-Ascending i zero high s h = tt
  discover_segments-Ascending i (suc n) high s h =
      let answer = master.get_segment_info i s in
      let found = segment_with master i answer in
      add_segment-Ascending i high found.0 (discover_segments master (suc i) n found.1).0
        (omega arith) (segment_with-Found i answer)
        (discover_segments-Ascending (suc i) n high found.1 (omega arith))

  refresh_with-WellFormed :
      (answer : Answer S PagProcessorInfo) (c : Calibration)
      → WellFormed c
      → After WellFormed (refresh_with master answer c)
  refresh_with-WellFormed (none, s) c h = h
  refresh_with-WellFormed (some info, s) c h =
      discover_segments-Ascending 0 info.max_segments info.max_segments s (omega arith)

  pub refresh-WellFormed :
      (c : Calibration) (s : S) → WellFormed c → After WellFormed (refresh master c s)
  unfolding refresh
  refresh-WellFormed c s h = refresh_with-WellFormed (master.get_pag_processor_info s) c h
