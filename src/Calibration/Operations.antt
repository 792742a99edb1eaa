-- ===== src/Calibration/Operations.antt =====
-- The operations on pages (pyxcp/master/calibration.py: Calibration).
use pyxcp.Prelude.{
  ℕ, Bool, true, false, ◌&&◌, ◌||◌, not, Option, none, some, [], ◌∷◌, ◌==◌, bit_and, bit_or,
  if◌then◌else◌,
}
use pyxcp.Calibration.Layout.{
  PagePropertiesInfo, Page, can_xcp_write, can_ecu_access, Dict, find_key, update_key, Segment,
  Calibration, Answer, Commands,
}
use pyxcp.Calibration.Discovery.{
  runtime_error, value_error, permission_error, type_error, command_error, Performed, returned,
  raised, refresh,
}

abbrev pub then_do :
    {S A B : Type 0} → (A → Calibration → S → Performed S B) → Performed S A → Performed S B
then_do next (returned a c s) = next a c s
then_do next (raised e c s) = raised e c s

-- A command of the master; the exception that it raises is passed on.
abbrev pub command : {S A : Type 0} → Calibration → Answer S A → Performed S A
command c (none, s) = raised command_error c s
command c (some a, s) = returned a c s

-- `CAL_PAGE_MODE_ECU`, `CAL_PAGE_MODE_XCP` and `CAL_PAGE_MODE_ALL`
abbrev pub cal_page_mode_ecu : ℕ
cal_page_mode_ecu = 0x01

abbrev pub cal_page_mode_xcp : ℕ
cal_page_mode_xcp = 0x02

abbrev pub cal_page_mode_all : ℕ
cal_page_mode_all = 0x80

abbrev pub has : ℕ → ℕ → Bool
has mode bit = not (bit_and mode bit == 0)

module _ {S : Type 0} (master : Commands S) where
  -- `_check_initialized`, before the rest of an operation.
  unfoldable pub check_initialized : Calibration → S → Performed S Unit
  unfolding refresh
  check_initialized c s = if c.initialized then returned tt c s else refresh master c s

  -- The access that the properties of a page refuse.
  abbrev pub refused : ℕ → Option PagePropertiesInfo → Bool
  refused mode none = false
  refused mode (some p) =
      (has mode cal_page_mode_xcp && not (can_xcp_write (some p)))
      || (has mode cal_page_mode_ecu && not (can_ecu_access (some p)))

  abbrev pub set_page_of : ℕ → ℕ → ℕ → Option Page → Calibration → S → Performed S Unit
  set_page_of segment page mode none c s = raised value_error c s
  set_page_of segment page mode (some pg) c s =
      if refused mode pg.properties
      then raised permission_error c s
      else command c (master.set_cal_page mode segment page s)

  abbrev pub set_page_in : ℕ → ℕ → ℕ → Option Segment → Calibration → S → Performed S Unit
  set_page_in segment page mode none c s = raised value_error c s
  set_page_in segment page mode (some seg) c s =
      set_page_of segment page mode (find_key page seg.pages) c s

  unfoldable pub set_page : ℕ → ℕ → ℕ → Calibration → S → Performed S Unit
  unfolding check_initialized find_key
  set_page segment page mode c s =
      then_do (λ u c' s'. set_page_in segment page mode (find_key segment c'.segments) c' s')
        (check_initialized c s)

  unfoldable pub set_ecu_page : ℕ → ℕ → Calibration → S → Performed S Unit
  unfolding set_page
  set_ecu_page segment page = set_page segment page cal_page_mode_ecu

  unfoldable pub set_xcp_page : ℕ → ℕ → Calibration → S → Performed S Unit
  unfolding set_page
  set_xcp_page segment page = set_page segment page cal_page_mode_xcp

  unfoldable pub set_all_pages : ℕ → ℕ → Calibration → S → Performed S Unit
  set_all_pages page mode c s =
      command c (master.set_cal_page (bit_or mode cal_page_mode_all) 0 page s)

  unfoldable pub set_all_segments_page : ℕ → ℕ → Calibration → S → Performed S Unit
  unfolding set_all_pages
  set_all_segments_page page mode = set_all_pages page mode

  unfoldable pub get_page : ℕ → ℕ → Calibration → S → Performed S ℕ
  get_page segment mode c s = command c (master.get_cal_page mode segment s)

  abbrev pub both : ℕ → Answer S ℕ → Answer S (ℕ × ℕ)
  both ecu_page (none, s) = (none, s)
  both ecu_page (some xcp_page, s) = (some (ecu_page, xcp_page), s)

  abbrev pub then_xcp : ℕ → Answer S ℕ → Answer S (ℕ × ℕ)
  then_xcp segment (none, s) = (none, s)
  then_xcp segment (some ecu_page, s) =
      both ecu_page (master.get_cal_page cal_page_mode_xcp segment s)

  -- The two pages of a segment, or none if one of the queries raises.
  abbrev pub query_pages : ℕ → S → Answer S (ℕ × ℕ)
  query_pages segment s = then_xcp segment (master.get_cal_page cal_page_mode_ecu segment s)

  abbrev pub add_config : ℕ → Option (ℕ × ℕ) → Dict (ℕ × ℕ) → Dict (ℕ × ℕ)
  add_config segment none config = config
  add_config segment (some pages) config = (segment, pages) ∷ config

  -- The loop of `get_current_config`.
  unfoldable pub query_segments : Dict Segment → S → Dict (ℕ × ℕ) × S
  query_segments [] s = ([], s)
  query_segments ((segment, seg) ∷ ss) s =
      let found = query_pages segment s in
      let rest = query_segments ss found.1 in (add_config segment found.0 rest.0, rest.1)

  unfoldable pub get_current_config : Calibration → S → Performed S (Dict (ℕ × ℕ))
  unfolding check_initialized query_segments
  get_current_config c s =
      then_do
        (λ u c' s'. returned (query_segments c'.segments s').0 c' (query_segments c'.segments s').1)
        (check_initialized c s)

  unfoldable pub copy_page : ℕ → ℕ → ℕ → ℕ → Calibration → S → Performed S Unit
  copy_page src_segment src_page dst_segment dst_page c s =
      command c (master.copy_cal_page src_segment src_page dst_segment dst_page s)

  abbrev pub is_some : {A : Type 0} → Option A → Bool
  is_some none = false
  is_some (some a) = true

  -- The loop of `copy_segment` over the pages of the source.
  unfoldable pub copy_pages : ℕ → ℕ → Dict Page → Dict Page → Calibration → S → Performed S Unit
  unfolding copy_page find_key
  copy_pages src_segment dst_segment [] dst c s = returned tt c s
  copy_pages src_segment dst_segment ((page_nr, pg) ∷ ps) dst c s =
      let rest = copy_pages src_segment dst_segment ps dst in
      if is_some (find_key page_nr dst)
      then then_do (λ u. rest) (copy_page src_segment page_nr dst_segment page_nr c s)
      else rest c s

  abbrev pub copy_between :
      ℕ → ℕ → Option Segment → Option Segment → Calibration → S → Performed S Unit
  copy_between src_segment dst_segment (some src) (some dst) c s =
      copy_pages src_segment dst_segment src.pages dst.pages c s
  copy_between src_segment dst_segment (some src) none c s = raised value_error c s
  copy_between src_segment dst_segment none dst c s = raised value_error c s

  unfoldable pub copy_segment : ℕ → ℕ → Calibration → S → Performed S Unit
  unfolding check_initialized copy_pages
  copy_segment src_segment dst_segment c s =
      then_do
        (λ u c' s'.
          copy_between src_segment dst_segment (find_key src_segment c'.segments)
            (find_key dst_segment c'.segments) c' s')
        (check_initialized c s)

  abbrev pub freeze_mode : Bool → ℕ
  freeze_mode enabled = if enabled then 1 else 0

  abbrev pub set_mode : ℕ → Segment → Segment
  set_mode mode seg = record seg { mode = mode }

  abbrev pub store_mode : ℕ → ℕ → Calibration → Calibration
  store_mode segment mode c = record c { segments = update_key segment (set_mode mode) c.segments }

  unfoldable pub set_freeze_mode : ℕ → Bool → Calibration → S → Performed S Unit
  unfolding check_initialized update_key
  set_freeze_mode segment enabled c s =
      then_do
        (λ u c' s'.
          if c'.freeze_supported
          then then_do (λ v c'' s''. returned tt (store_mode segment (freeze_mode enabled) c'') s'')
              (command c' (master.set_segment_mode (freeze_mode enabled) segment s'))
          else raised runtime_error c' s')
        (check_initialized c s)

  abbrev pub frozen_of : Option ℕ → Calibration → S → Performed S Bool
  frozen_of (some mode) c s = returned (has mode 0x01) c s
  frozen_of none c s = raised type_error c s

  unfoldable pub is_frozen : ℕ → Calibration → S → Performed S Bool
  is_frozen segment c s = then_do frozen_of (command c (master.get_segment_mode segment s))

  unfoldable pub save_all : Calibration → S → Performed S Unit
  save_all c s = command c (master.set_request 0x01 0 s)

  abbrev pub properties_of : Option Page → Option PagePropertiesInfo
  properties_of none = none
  properties_of (some pg) = pg.properties

  abbrev pub properties_in : ℕ → Option Segment → Option PagePropertiesInfo
  properties_in page none = none
  properties_in page (some seg) = properties_of (find_key page seg.pages)

  unfoldable pub page_properties : ℕ → ℕ → Calibration → S → Performed S (Option PagePropertiesInfo)
  unfolding check_initialized find_key
  page_properties segment page c s =
      then_do (λ u c' s'. returned (properties_in page (find_key segment c'.segments)) c' s')
        (check_initialized c s)
