-- ===== src/Calibration/Layout.antt =====
-- Segments and pages (pyxcp/master/calibration.py: Page, Segment, Calibration;
-- pyxcp/types.py: PagePropertiesInfo, PageInfo).
use pyxcp.Prelude.{ℕ, Bool, false, ◌||◌, Option, none, some, List, [], ◌∷◌, ◌==◌, if◌then◌else◌}

pub record PagePropertiesInfo : Type 0 where
  pub ecu_access_with_xcp : Bool
  pub ecu_access_without_xcp : Bool
  pub xcp_read_access_with_ecu : Bool
  pub xcp_read_access_without_ecu : Bool
  pub xcp_write_access_with_ecu : Bool
  pub xcp_write_access_without_ecu : Bool

abbrev pub ecu_access : PagePropertiesInfo → Bool
ecu_access p = p.ecu_access_with_xcp || p.ecu_access_without_xcp

abbrev pub xcp_write_access : PagePropertiesInfo → Bool
xcp_write_access p = p.xcp_write_access_with_ecu || p.xcp_write_access_without_ecu

pub record PageInfo : Type 0 where
  pub properties : PagePropertiesInfo
  pub init_segment : ℕ

pub record Page : Type 0 where
  pub segment_number : ℕ
  pub page_number : ℕ
  pub properties : Option PagePropertiesInfo
  pub init_segment : ℕ

abbrev pub can_xcp_write : Option PagePropertiesInfo → Bool
can_xcp_write none = false
can_xcp_write (some p) = xcp_write_access p

abbrev pub can_ecu_access : Option PagePropertiesInfo → Bool
can_ecu_access none = false
can_ecu_access (some p) = ecu_access p

-- A dictionary with its keys in the order of insertion.
abbrev pub Dict : Type 0 → Type 0
Dict A = List (ℕ × A)

unfoldable pub find_key : {A : Type 0} → ℕ → Dict A → Option A
find_key k [] = none
find_key k ((key, a) ∷ ds) = let rest = find_key k ds in if key == k then some a else rest

-- The value of a key is changed.
unfoldable pub update_key : {A : Type 0} → ℕ → (A → A) → Dict A → Dict A
update_key k f [] = []
update_key k f ((key, a) ∷ ds) =
    let rest = update_key k f ds in if key == k then (key, f a) ∷ ds else (key, a) ∷ rest

pub record Segment : Type 0 where
  pub number : ℕ
  pub max_pages : ℕ
  pub address_extension : ℕ
  pub max_mapping : ℕ
  pub compression_method : ℕ
  pub encryption_method : ℕ
  pub pages : Dict Page
  pub address : Option ℕ
  pub length : Option ℕ
  pub mode : ℕ

pub record Calibration : Type 0 where
  pub segments : Dict Segment
  pub max_segments : ℕ
  pub freeze_supported : Bool
  pub initialized : Bool

-- `__init__`
abbrev pub new_calibration : Calibration
new_calibration = record {
  segments = [];
  max_segments = 0;
  freeze_supported = false;
  initialized = false;
}

-- Parts of the responses that are used.
pub record PagProcessorInfo : Type 0 where
  pub max_segments : ℕ
  pub freeze_supported : Bool

pub record SegmentInfo : Type 0 where
  pub max_pages : ℕ
  pub address_extension : ℕ
  pub max_mapping : ℕ
  pub compression_method : ℕ
  pub encryption_method : ℕ

-- What a command gives, or none for an exception, and the slave after it.
abbrev pub Answer : Type 0 → Type 0 → Type 0
Answer S A = Option A × S

-- The commands of the master. The first argument of get_basic_info is the segment, the second
-- what is asked for; get_segment_mode may have nothing to return.
pub record Commands (S : Type 0) : Type 0 where
  pub get_pag_processor_info : S → Answer S PagProcessorInfo
  pub get_segment_info : ℕ → S → Answer S SegmentInfo
  pub get_basic_info : ℕ → ℕ → S → Answer S ℕ
  pub get_page_info : ℕ → ℕ → S → Answer S PageInfo
  pub get_segment_mode : ℕ → S → Answer S (Option ℕ)
  pub set_segment_mode : ℕ → ℕ → S → Answer S Unit
  pub get_cal_page : ℕ → ℕ → S → Answer S ℕ
  pub set_cal_page : ℕ → ℕ → ℕ → S → Answer S Unit
  pub copy_cal_page : ℕ → ℕ → ℕ → ℕ → S → Answer S Unit
  pub set_request : ℕ → ℕ → S → Answer S Unit
