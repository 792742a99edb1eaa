-- ===== src/Calibration/Discovery.antt =====
-- The layout is read from the slave (pyxcp/master/calibration.py: refresh).
use pyxcp.Prelude.{ℕ, zero, suc, true, Option, none, some, [], ◌∷◌}
use pyxcp.Calibration.Layout.{
  PageInfo, Page, Dict, Segment, Calibration, PagProcessorInfo, SegmentInfo, Answer, Commands,
}

pub data RaisedError : Type 0 where
  runtime_error : RaisedError
  value_error : RaisedError
  permission_error : RaisedError
  type_error : RaisedError
  command_error : RaisedError

-- What an operation returns or raises, with the object and the slave after it.
pub data Performed (S A : Type 0) : Type 0 where
  returned : A → Calibration → S → Performed S A
  raised : RaisedError → Calibration → S → Performed S A

module _ {S : Type 0} (master : Commands S) where
  abbrev pub page_of : ℕ → ℕ → PageInfo → Page
  page_of i p info = record {
    segment_number = i;
    page_number = p;
    properties = some info.properties;
    init_segment = info.init_segment;
  }

  abbrev pub add_page : ℕ → ℕ → Option PageInfo → Dict Page → Dict Page
  add_page i p none ps = ps
  add_page i p (some info) ps = (p, page_of i p info) ∷ ps

  -- `for p in range(...)`, from a page on.
  unfoldable pub discover_pages : ℕ → ℕ → ℕ → S → Dict Page × S
  discover_pages i p zero s = ([], s)
  discover_pages i p (suc n) s =
      let answer = master.get_page_info i p s in
      let rest = discover_pages i (suc p) n answer.1 in (add_page i p answer.0 rest.0, rest.1)

  abbrev pub with_length : ℕ → Answer S ℕ → (Option ℕ × Option ℕ) × S
  with_length address (answer, s) = ((some address, answer), s)

  abbrev pub with_address : ℕ → Answer S ℕ → (Option ℕ × Option ℕ) × S
  with_address i (none, s) = ((none, none), s)
  with_address i (some address, s) = with_length address (master.get_basic_info i 1 s)

  -- The address and the length, as far as they are known.
  unfoldable pub address_and_length : ℕ → S → (Option ℕ × Option ℕ) × S
  address_and_length i s = with_address i (master.get_basic_info i 0 s)

  abbrev pub mode_or_zero : Option (Option ℕ) → ℕ
  mode_or_zero (some (some mode)) = mode
  mode_or_zero (some none) = 0
  mode_or_zero none = 0

  abbrev pub make_segment : ℕ → SegmentInfo → Option ℕ × Option ℕ → Dict Page → ℕ → Segment
  make_segment i info place pages mode = record {
    number = i;
    max_pages = info.max_pages;
    address_extension = info.address_extension;
    max_mapping = info.max_mapping;
    compression_method = info.compression_method;
    encryption_method = info.encryption_method;
    pages = pages;
    address = place.0;
    length = place.1;
    mode = mode;
  }

  abbrev pub segment_with : ℕ → Answer S SegmentInfo → Option Segment × S
  segment_with i (none, s) = (none, s)
  segment_with i (some info, s) =
      let place = address_and_length i s in
      let pages = discover_pages i 0 info.max_pages place.1 in
      let mode = master.get_segment_mode i pages.1 in
      (some (make_segment i info place.0 pages.0 (mode_or_zero mode.0)), mode.1)

  -- One segment, or none if it has no basic information.
  unfoldable pub discover_segment : ℕ → S → Option Segment × S
  unfolding address_and_length discover_pages
  discover_segment i s = segment_with i (master.get_segment_info i s)

  abbrev pub add_segment : ℕ → Option Segment → Dict Segment → Dict Segment
  add_segment i none ss = ss
  add_segment i (some segment) ss = (i, segment) ∷ ss

  -- `for i in range(...)`, from a segment on.
  unfoldable pub discover_segments : ℕ → ℕ → S → Dict Segment × S
  unfolding discover_segment
  discover_segments i zero s = ([], s)
  discover_segments i (suc n) s =
      let found = discover_segment i s in
      let rest = discover_segments (suc i) n found.1 in (add_segment i found.0 rest.0, rest.1)

  abbrev pub refresh_with : Answer S PagProcessorInfo → Calibration → Performed S Unit
  refresh_with (none, s) c = raised runtime_error c s
  refresh_with (some info, s) c =
      let found = discover_segments 0 info.max_segments s in
      returned tt
        (record {
          segments = found.0;
          max_segments = info.max_segments;
          freeze_supported = info.freeze_supported;
          initialized = true;
        })
        found.1

  unfoldable pub refresh : Calibration → S → Performed S Unit
  unfolding discover_segments
  refresh c s = refresh_with (master.get_pag_processor_info s) c
